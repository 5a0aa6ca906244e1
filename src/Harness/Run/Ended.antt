-- ===== src/Harness/Run/Ended.antt =====
-- What the report of a run says, and what it means that a run ends well.
use quorum_kv.Prelude.{String, ◌≡◌, refl, not, Option, none, some, Try, ok, err}
use quorum_kv.Harness.Runner.{Report, Options, Runner, Env, State, pure, outside, asks, ◌>>=◌}
use quorum_kv.Harness.Runner.Rules.{Triple, Any, Triple-pure, Triple-bind}
use quorum_kv.Harness.Run.Good.{Good}
use quorum_kv.Harness.Run.Faulty.{Healed}
use quorum_kv.Prelude.{inr, ap}
use mathlib.Core.Path.{subst}
use quorum_kv.Harness.Runner.Rules.{Holds, Triple-outside}
use quorum_kv.Harness.Run.{
  List, failed, summary, new_runner, write_report, report_written, finish, phases, run_in, run_from,
  run,
}
use quorum_kv.Harness.Run.Log.{condition_after, follow}
use quorum_kv.Harness.Runner.{continue}
use quorum_kv.Harness.Run.Verdict.{Verdict, check_names, phases-Good}

module _ {W : Type 0} (e : Env W) where
  -- the report is the one of this runner
  abbrev pub Reports : Runner → Try String Report → Type 0
  Reports r (err x) = Unit
  Reports r (ok report) = report ≡ record (summary report.finished_at r) {
    history_file = e.join r.options.out_dir "history.jsonl";
    all_passed = not (failed r.report.checks);
  }

  module _ (r : Runner) where
    abbrev Is : State W → Type 0
    Is s = s.runner ≡ r

    Is-outside : {A : Type 0} (f : W → A × W) → Triple Is Any Is (outside f)
    Is-outside f = Triple-outside f λ s w h. h

    write_report-Reports :
        (dir : String) (report : Report) (x : Option String)
        → Reports r (ok report)
        → Triple Is (Reports r) Is (write_report e dir report x)
    unfolding write_report
    write_report-Reports dir report (some x) h = Triple-pure _ tt
    write_report-Reports dir report none h =
        Triple-bind (Is-outside _) λ y _. Triple-pure _ (written y)
      where
        written : (y : Option String) → Reports r (report_written e report y)
        written none = h
        written (some x) = tt

  the_runner : (r : Runner) → Triple (Is r) (λ a. a ≡ r) (Is r) (asks (λ r'. r'))
  unfolding asks
  the_runner r = record { at = λ s h. (h, h) }

  finish-Reports : (r : Runner) → Triple (Is r) (Reports r) (Is r) (finish e)
  unfolding finish summary
  finish-Reports r = Triple-bind (Is-outside r _) λ now _. Triple-bind (the_runner r) λ r' same.
      Triple-bind (Is-outside r _) λ y _. write_report-Reports r _ _ y (
        ap
          (λ x. record (summary now x) {
            history_file = e.join x.options.out_dir "history.jsonl";
            all_passed = not (failed x.report.checks);
          })
          same)

  -- a property that the phases establish, and that is one of the runner
  module _ {P Q : State W → Type 0} (h : Triple P Any Q (phases e))
      (moved : (s t : State W) → t.runner ≡ s.runner → Q s → Q t) where
    abbrev Gives : Try String Report → State W → Type 0
    Gives (err x) s = Unit
    Gives (ok report) s = Q s × Reports s.runner (ok report)

    reported :
        (s : State W) (x : Option (Try String Report × State W))
        → Q s
        → Holds (λ y t. Reports s.runner y × Is s.runner t) x
        → Holds Gives x
    reported s none q r = tt
    reported s (some (err m, t)) q r = tt
    reported s (some (ok report, t)) q (r, same) = (moved s t same q, rw same r)

    finished :
        (x : Option (Unit {0} × State W))
        → Holds (λ u t. Unit × Q t) x
        → Holds Gives (continue x (λ _. finish e))
    finished none q = tt
    finished (some (u, t)) (v, q) = reported t (finish e t) q ((finish-Reports t.runner).at t refl)

    run_in-Gives : (s : State W) (x : Option String) → P s → Holds Gives (run_in e x s)
    run_in-Gives s (some m) p = unfold pure in tt
    run_in-Gives s none p = unfold ◌>>=◌ in finished (phases e s) (h.at s p)

    run-Gives :
        (o : Options) (w : W)
        → ((w' : W) → P (record { runner = new_runner (e.clock w) o; world = w' }))
        → Holds Gives (run e o w)
    unfolding run run_from ◌>>=◌ asks outside
    run-Gives o w p = run_in-Gives _ _ (p _)

    -- what the phases establish for the new runner holds at the end of the run
    pub run-Reports :
        (o : Options) (w : W) (report : Report) (t : State W)
        → ((w' : W) → P (record { runner = new_runner (e.clock w) o; world = w' }))
        → run e o w ≡ some (ok report, t)
        → Q t × Reports t.runner (ok report)
    run-Reports o w report t p r = subst (Holds Gives) r (run-Gives o w p)

  -- how a run ends that gives a report
  pub record Done (o : Options) (report : Report) (s : State W) : Type 0 where
    pub good : Good o (check_names o.skip_faults) Healed s
    pub verdict : Verdict e s
    pub reports : Reports s.runner (ok report)

  Good-moved :
      (o : Options) (ns : List String) (s t : State W)
      → t.runner ≡ s.runner
      → Good o ns Healed s × Verdict e s
      → Good o ns Healed t × Verdict e t
  Good-moved o ns s t same (g, v) = (
    record {
      same_options = rw same g.same_options;
      usable = rw same g.usable;
      reset = rw same g.reset;
      log = rw same g.log;
      names = rw same g.names;
    },
    rw same v,
  )

  pub Done-run :
      (o : Options) (w : W) (report : Report) (t : State W)
      → run e o w ≡ some (ok report, t)
      → Done o report t
  unfolding new_runner condition_after follow
  Done-run o w report t h =
      let (q, r) =
        run-Reports (phases-Good e o) (Good-moved o (check_names o.skip_faults)) o w report t
          (λ w'. (
            record { same_options = refl; usable = tt; reset = tt; log = refl; names = inr refl },
            refl,
          ))
          h in
      record { good = q.0; verdict = q.1; reports = r }
