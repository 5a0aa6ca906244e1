-- ===== src/Harness/Main/Tests.antt =====
-- The harness's main in a small world.
use quorum_kv.Prelude.{zero, suc, ◌≡◌, refl, true, false, Bool, Option, none, some, arith}
use quorum_kv.Prelude.Int.{pos}
use quorum_kv.Json.Postfix.{print, parse}
use quorum_kv.Checker.Scan.{verdict}
use quorum_kv.Kv.Fsm.{fill_map}
use quorum_kv.History.File.{write_file}
use quorum_kv.Harness.Nodes.{parse_nodes}
use quorum_kv.Harness.Runner.{◌>>=◌, add_event, wait}
use quorum_kv.Harness.Run.{Exit, fatal, status, new_runner, run, exit_of}
use quorum_kv.Harness.Run.World.{World, world, start, world-Lawful}
use quorum_kv.Harness.Main.{Flags, default_flags, main}
use quorum_kv.Harness.Main.Ends.{main-ends, main-RanWell, RanWell}

abbrev flags : Flags
flags = record {
  nodes = "n1=http://n1=n1=n1, n2=http://n2=n2=n2,n3=http://n3=n3=n3,";
  duration = 1000;
  clients = 1;
  keys = 1;
  seed = pos 7;
  out_dir = "out";
  fixtures = "fixtures";
  skip_faults = false;
  check_file = "";
}

abbrev world_after : Option (Exit × World) → World
world_after none = start
world_after (some (x, w)) = w

abbrev is_passed : Option (Exit × World) → Bool
is_passed (some (status zero, w)) = true
is_passed x = false

is_passed_lem :
    (x : Option (Exit × World)) → is_passed x ≡ true → x ≡ some (status 0, world_after x)
is_passed_lem none h = absurd cc
is_passed_lem (some (status zero, w)) h = refl
is_passed_lem (some (status (suc n), w)) h = absurd cc
is_passed_lem (some (fatal m, w)) h = absurd cc

main_of_flags : is_passed (main world flags start) ≡ true
unfolding main run new_runner exit_of parse_nodes ◌>>=◌ write_file print parse verdict add_event
    wait fill_map
main_of_flags = refl

main-RanWell_example : RanWell world flags start (world_after (main world flags start))
main-RanWell_example =
    main-RanWell world flags start (world_after (main world flags start)) refl
      (is_passed_lem (main world flags start) main_of_flags)

-- A node is missing.
main_of_two_nodes :
    main world (record flags { nodes = "n1=http://n1=n1=n1" }) start
    ≡ some (fatal "expected exactly 3 nodes, got 1", start)
unfolding main parse_nodes
main_of_two_nodes = refl

main-ends_example :
    (x : Exit) × (w : World) × (main world (default_flags (pos 7)) start ≡ some (x, w))
main-ends_example =
    main-ends world (default_flags (pos 7)) start world-Lawful refl (omega arith) (omega arith)
      (omega arith)
