-- ===== src/Harness/Main.antt =====
-- cmd/harness/main.go: the flags, and main from their parsing on.
pub mod Ends
mod Tests
use quorum_kv.Prelude.{
  String, Bool, false, Option, none, some, List, [], ◌==◌, not, if◌then◌else◌, Try, ok, err, ℕ, ◌*◌,
}
use Prim.Native.String.{◌++◌}
use quorum_kv.Prelude.Int.{ℤ}
use quorum_kv.Fmt.{decimal}
use quorum_kv.Specs.{SpecError, bad_spec, bad_count}
use quorum_kv.Harness.Nodes.{Node, parse_nodes}
use quorum_kv.Harness.Runner.{Options, Report, Env, State, second}
use quorum_kv.Harness.Run.{new_runner, Exit, fatal, run, exit_of, check_only}

-- The values of the flags after flag.Parse.
pub record Flags : Type 0 where
  pub nodes : String
  pub duration : ℕ
  pub clients : ℕ
  pub keys : ℕ
  pub seed : ℤ
  pub out_dir : String
  pub fixtures : String
  pub skip_faults : Bool
  pub check_file : String

abbrev pub default_nodes : String
default_nodes =
    "node1=http://localhost:8081=quorum-node1=172.28.0.11,"
    ++ "node2=http://localhost:8082=quorum-node2=172.28.0.12,"
    ++ "node3=http://localhost:8083=quorum-node3=172.28.0.13"

-- their defaults, at the time `now`
abbrev pub default_flags : ℤ → Flags
default_flags now = record {
  nodes = default_nodes;
  duration = 90 * second;
  clients = 8;
  keys = 8;
  seed = now;
  out_dir = "harness/out";
  fixtures = "harness/fixtures";
  skip_faults = false;
  check_file = "";
}

-- the text of ParseNodes' error
abbrev pub node_error_text : (String → String) → SpecError → String
node_error_text quote (bad_spec part) =
    "bad node spec " ++ quote part ++ " (want id=url=container=ip)"
node_error_text quote (bad_count n) = "expected exactly 3 nodes, got " ++ decimal n

abbrev pub options_of : Flags → List Node → Options
options_of f nodes = record {
  nodes = nodes;
  duration = f.duration;
  num_clients = f.clients;
  num_keys = f.keys;
  seed = f.seed;
  out_dir = f.out_dir;
  fixtures_dir = f.fixtures;
  skip_faults = f.skip_faults;
}

module _ {W : Type 0} (e : Env W) where
  abbrev pub ended : Option (Try String Report × State W) → Option (Exit × W)
  ended none = none
  ended (some (x, s)) = some (exit_of e x, s.world)

  abbrev pub run_with : Flags → W → Try SpecError (List Node) → Option (Exit × W)
  run_with f w (err x) = some (fatal (node_error_text e.quote x), w)
  run_with f w (ok nodes) = ended (run e (options_of f nodes) w)

  abbrev pub world_of : Option (Exit × State W) → Option (Exit × W)
  world_of none = none
  world_of (some (x, s)) = some (x, s.world)

  -- main behind flag.Parse. The check of a file needs no runner; it is given one that it does not use.
  unfoldable pub main : Flags → W → Option (Exit × W)
  unfolding new_runner check_only run exit_of parse_nodes
  main f w =
      let blank : State W = record {
        runner = new_runner (e.clock w) (options_of f []);
        world = w;
      } in
      if not (f.check_file == "")
      then world_of (check_only e f.check_file blank)
      else run_with f w (parse_nodes f.nodes)
