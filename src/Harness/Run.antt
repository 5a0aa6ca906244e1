-- ===== src/Harness/Run.antt =====
-- internal/harness/run.go: Run and finish, and cmd/harness: the exit status.
pub mod Log
pub mod Recorded
pub mod Good
pub mod Invoked
pub mod Members
pub mod Resets
pub mod Quiet
pub mod Cleared
pub mod Rounds
pub mod Faulty
pub mod Durable
pub mod Isolated
pub mod Work
pub mod Shaken
pub mod Verdict
pub mod Ended
pub mod Outcome
pub mod Broken
pub mod Standalone
pub mod Brief
pub mod Timed
pub mod Patient
pub mod Majority
pub mod Chaotic
pub mod Finishes
pub mod World
pub mod Tests
pub mod NodeTests
use quorum_kv.Prelude.{
  String, ◌≡◌, refl, Bool, true, false, ◌&&◌, ◌||◌, not, Option, none, some, List, [], ◌∷◌, map,
  ◌==◌, eq_iff, arith, if◌then◌else◌, Try, ok, err, length, ℕ, zero, suc, ◌+◌, ◌%◌, ◌*◌, ◌^◌, ltb,
  leb, nat_eq,
}
use quorum_kv.Prelude.Int.{ℤ, pos}
use quorum_kv.History.{Op, outcome_ok, outcome_failed, outcome_unknown}
use quorum_kv.Harness.Nodes.{Node}
use quorum_kv.Harness.Invoke.{Client}
use quorum_kv.Harness.Runner.{
  CheckResult, FaultEvent, Report, Options, Runner, Env, State, Run, pure, stuck, or_stuck, outside,
  asks, ◌>>=◌, ◌>>◌, wait, add_event, check, new_client, request, invoke_op, ms, second,
}
use Prim.Native.String.{◌++◌}
use quorum_kv.Json.{Bytes}
use quorum_kv.Checker.Check
use quorum_kv.History.File.{write_file}
use quorum_kv.Harness.Nodes.{parse_nodes}
use quorum_kv.Harness.Phases.SelfTest.{phase_checker_self_test, read_history}
use quorum_kv.Harness.Phases.Reset.{phase_reset}
use quorum_kv.Harness.Phases.Smoke.{phase_smoke}
use quorum_kv.Harness.Phases.Contention.{phase_cas_contention}
use quorum_kv.Harness.Phases.Durability.{phase_leader_kill_durability}
use quorum_kv.Harness.Phases.Minority.{phase_minority_refuses_writes}
use quorum_kv.Harness.Phases.Chaos.{phase_chaos}
use quorum_kv.Harness.Phases.Convergence.{phase_convergence}
use quorum_kv.Harness.Phases.Final.{phase_linearizability}

-- runner.failed
unfoldable pub failed : List CheckResult → Bool
failed [] = false
failed (c ∷ cs) = if not c.pass then true else failed cs

-- how often an outcome stands in the history
unfoldable pub count_outcome : String → List Op → ℕ
count_outcome outcome [] = 0
count_outcome outcome (o ∷ os) =
    let rest = count_outcome outcome os in if o.outcome == outcome then rest + 1 else rest

-- The report at the end of a run, but for the name of the history file.
unfoldable pub summary : ℕ → Runner → Report
unfolding failed count_outcome
summary now r = record r.report {
  finished_at = now;
  ops_total = length r.recorded;
  ops_ok = count_outcome outcome_ok r.recorded;
  ops_failed = count_outcome outcome_failed r.recorded;
  ops_unknown = count_outcome outcome_unknown r.recorded;
  faults = r.events;
}

abbrev new_report : ℕ → ℤ → Report
new_report now seed = record {
  started_at = now;
  finished_at = 0;
  seed = seed;
  checks = [];
  faults = [];
  ops_total = 0;
  ops_ok = 0;
  ops_failed = 0;
  ops_unknown = 0;
  history_file = "";
  all_passed = false;
}

unfoldable pub new_runner : ℕ → Options → Runner
new_runner now o = record {
  options = o;
  recorded = [];
  events = [];
  report = new_report now o.seed;
}

-- how cmd/harness ends: with an error's text, or with a status
pub data Exit : Type 0 where
  fatal : String → Exit
  status : ℕ → Exit

module _ {W : Type 0} (e : Env W) where
  abbrev pub report_written : Report → Option String → Try String Report
  report_written report (some x) = err x
  report_written report none = ok report

  unfoldable pub write_report : String → Report → Option String → Run W (Try String Report)
  write_report dir report (some x) = pure (err x)
  write_report dir report none = do
    written ← outside (e.write_file (e.join dir "report.json") (e.report_text report))
    pure (report_written report written)

  -- runner.finish; the report is the runner's own
  unfoldable pub finish : Run W (Try String Report)
  unfolding write_report summary failed
  finish = do
    now ← outside (λ w. (e.clock w, w))
    r ← asks (λ r. r)
    let path = e.join r.options.out_dir "history.jsonl"
    let report = record (summary now r) {
      history_file = path;
      all_passed = not (failed r.report.checks);
    }
    written ← outside (e.write_file path (write_file e.text r.recorded))
    write_report r.options.out_dir report written

  -- the phases that inject faults
  unfoldable pub fault_phases : Run W (Unit {0})
  unfolding phase_leader_kill_durability phase_minority_refuses_writes phase_chaos phase_convergence
  fault_phases = do
    phase_leader_kill_durability e
    phase_minority_refuses_writes e
    phase_chaos e
    phase_convergence e

  abbrev pub faults_unless : Bool → Run W (Unit {0})
  faults_unless true = pure tt
  faults_unless false = fault_phases

  -- the phases behind the checker's self-test
  unfoldable pub cluster_phases : Run W (Unit {0})
  unfolding fault_phases phase_reset phase_smoke phase_cas_contention phase_linearizability
  cluster_phases = do
    phase_reset e
    phase_smoke e
    phase_cas_contention e
    skip ← asks (λ r. r.options.skip_faults)
    faults_unless skip
    phase_linearizability e

  -- a broken checker ends the run
  abbrev pub unless_broken : Bool → Run W (Unit {0})
  unless_broken true = pure tt
  unless_broken false = cluster_phases

  unfoldable pub phases : Run W (Unit {0})
  unfolding phase_checker_self_test cluster_phases failed
  phases = do
    phase_checker_self_test e
    broken ← asks (λ r. failed r.report.checks)
    unless_broken broken

  -- the run in a directory that was made, or not
  abbrev pub run_in : Option String → Run W (Try String Report)
  run_in (some x) = pure (err x)
  run_in none = phases >> finish

  -- Run, from the clock and the directory on
  unfoldable pub run_from : Run W (Try String Report)
  unfolding phases finish
  run_from = do dir ← asks (λ r. r.options.out_dir); made ← outside (e.mkdir_all dir); run_in made

  -- Run
  unfoldable pub run : Options → W → Option (Try String Report × State W)
  unfolding run_from new_runner
  run o w = run_from (record { runner = new_runner (e.clock w) o; world = w })

  -- the end of main, from what Run returns
  unfoldable pub exit_of : Try String Report → Exit
  exit_of (err x) = fatal ("harness: " ++ x)
  exit_of (ok report) = if not report.all_passed then status 1 else status 0

  -- main with -check: the history of a file is checked
  abbrev pub checked : Try String (List Op) → Exit
  checked (err x) = fatal ("read history: " ++ x)
  checked (ok ops) =
      if not (Check.check e.porcupine ops (300 * second)).linearizable then status 1 else status 0

  unfoldable pub check_only : String → Run W Exit
  unfolding read_history Check.check
  check_only path = do ops ← read_history e path; pure (checked ops)
