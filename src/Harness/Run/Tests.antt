-- ===== src/Harness/Run/Tests.antt =====
-- Whole runs in a small world.
use quorum_kv.Harness.Run.Resets.{ResetBy}
use quorum_kv.Prelude.{
  All, String, ◌≡◌, refl, Bool, true, false, Option, none, some, [], ◌∷◌, Try, ok, err, ◌+◌,
}
use quorum_kv.Json.Postfix.{print, parse}
use quorum_kv.Checker.Scan.{verdict}
use quorum_kv.Kv.Fsm.{fill_map}
use quorum_kv.History.File.{write_file}
use quorum_kv.Harness.Runner.{◌>>=◌, add_event, wait, Report, Env, State}
use quorum_kv.Harness.Run.{new_runner, run, status, exit_of}
use quorum_kv.Harness.Run.Majority.{two-HasMajority}
use quorum_kv.Harness.Run.Finishes.{Usable, run-ends}
use quorum_kv.Prelude.{arith}
use quorum_kv.Harness.Run.Log.{healed, condition_after}
use quorum_kv.Harness.Run.Good.{IsUsable}
use quorum_kv.Harness.Run.Outcome.{run-heals, run-records, run-counts, Passed, run-passed}
use quorum_kv.Harness.Phases.Keys.{reset_keys}
use quorum_kv.Harness.Run.Broken.{broken_checker}
use quorum_kv.Harness.Runner.{request}
use quorum_kv.Harness.Run.Standalone.{check_only-AllowedOrder}
use quorum_kv.Harness.Run.{check_only}
use quorum_kv.Harness.Phases.SelfTest.{read_opened}
use quorum_kv.History.File.{read}
use quorum_kv.Checker.Kept.{part}
use quorum_kv.Checker.Sound.{AllowedOrder}
use quorum_kv.Checker.Operations.{to_operations}
use quorum_kv.Harness.Run.World.{put_a, get_a}
use mathlib.Core.List.{Memᴰ}
use quorum_kv.Harness.Faults.{heal_commands, isolate_commands}
use quorum_kv.Harness.Faults.Undone.{flush_of, heal-isolate}
use quorum_kv.Harness.Run.World.{World, world, node, options, start, world-Lawful}

-- the report and the last state of a run that gives a report; the other results do not occur here
abbrev ended_with : State World → Option (Try String Report × State World) → Report × State World
ended_with s none = (s.runner.report, s)
ended_with s (some (err x, t)) = (t.runner.report, t)
ended_with s (some (ok r, t)) = (r, t)

abbrev before : State World
before = record { runner = new_runner 0 (options false); world = start }

unfoldable final : Report × State World
unfolding run new_runner
final = ended_with before (run world (options false) start)

abbrev is_report : Option (Try String Report × State World) → Bool
is_report none = false
is_report (some (err x, t)) = false
is_report (some (ok r, t)) = true

ended_with_lem :
    (s : State World) (x : Option (Try String Report × State World))
    → is_report x ≡ true
    → x ≡ some (ok (ended_with s x).0, (ended_with s x).1)
ended_with_lem s none h = absurd cc
ended_with_lem s (some (err x, t)) h = absurd cc
ended_with_lem s (some (ok r, t)) h = refl

gives_report : is_report (run world (options false) start) ≡ true
unfolding run ◌>>=◌ write_file print parse verdict add_event wait fill_map
gives_report = refl

final-run : run world (options false) start ≡ some (ok final.0, final.1)
unfolding final
final-run = ended_with_lem before (run world (options false) start) gives_report

final-status : exit_of world (ok final.0) ≡ status 0
unfolding final run exit_of ◌>>=◌ write_file print parse verdict add_event wait fill_map
final-status = refl

-- Three kills of the leader, a cut and a kill behind it are undone in the end.
run-heals_example : condition_after final.0.faults ≡ some healed
run-heals_example = run-heals world (options false) start final.0 final.1 final-run

run-records_example :
    All (IsUsable (reset_keys 1)) final.1.runner.recorded
    × All (ResetBy (reset_keys 1) final.1.runner.recorded) final.0.checks
run-records_example = run-records world (options false) start final.0 final.1 final-run

run-counts_example : final.0.ops_ok + final.0.ops_failed + final.0.ops_unknown ≡ final.0.ops_total
run-counts_example = run-counts world (options false) start final.0 final.1 final-run

run-passed_example : Passed world (options false) start final.0 final.1
run-passed_example = run-passed world (options false) start final.0 final.1 final-run final-status

options-Usable : Usable (options false)
options-Usable = record {
  some_node = omega arith;
  majority_left = two-HasMajority (node "n1") (node "n2") (node "n3" ∷ []) refl;
  some_key = omega arith;
}

run-ends_example :
    (x : Try String Report) × (s : State World) × (run world (options false) start ≡ some (x, s))
run-ends_example =
    run-ends world (options false) start world-Lawful options-Usable (omega arith) (omega arith)

-- the world without the files of the fixtures
abbrev no_fixtures : Env World
no_fixtures = record world { read_file = λ path w. (err "no such file", w) }

unfoldable stopped : Report × State World
unfolding run new_runner
stopped = ended_with before (run no_fixtures (options false) start)

stopped_report : is_report (run no_fixtures (options false) start) ≡ true
unfolding run ◌>>=◌ write_file print parse verdict add_event wait fill_map
stopped_report = refl

stopped-run : run no_fixtures (options false) start ≡ some (ok stopped.0, stopped.1)
unfolding stopped
stopped-run = ended_with_lem before (run no_fixtures (options false) start) stopped_report

broken_checker_example :
    (stopped.1.runner.recorded ≡ [])
    × (stopped.0.faults ≡ [])
    × (exit_of no_fixtures (ok stopped.0) ≡ status 1)
broken_checker_example =
    broken_checker no_fixtures (options false) start stopped.0 stopped.1 (λ w. tt) stopped-run

heal-isolate_example :
    Memᴰ ("docker" ∷ "start" ∷ "n2" ∷ []) (heal_commands (options false).nodes)
    × All
        (λ c. Memᴰ (flush_of c) (heal_commands (options false).nodes))
        (isolate_commands (options false).nodes (node "n2"))
heal-isolate_example = heal-isolate (options false).nodes (node "n2") (Memᴰ.tail (Memᴰ.head refl))

good_read :
    read_opened world (world.read_file "fixtures/known-good-history.jsonl" start).0
    ≡ ok (put_a ∷ get_a true "1" ∷ [])
unfolding write_file print parse read request
good_read = refl

good_code : check_only world "fixtures/known-good-history.jsonl" before ≡ some (status 0, before)
unfolding check_only ◌>>=◌ write_file print parse read verdict request
good_code = refl

check_only-AllowedOrder_example :
    AllowedOrder "a" (part "a" (to_operations (put_a ∷ get_a true "1" ∷ [])))
unfolding request
check_only-AllowedOrder_example =
    check_only-AllowedOrder world "fixtures/known-good-history.jsonl" (put_a ∷ get_a true "1" ∷ [])
      before before good_read (refl, (refl, tt)) good_code "a"
