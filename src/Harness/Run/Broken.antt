-- ===== src/Harness/Run/Broken.antt =====
-- A checker that fails its self-test ends the run.
use quorum_kv.Prelude.{
  ap, String, ◌≡◌, refl, Bool, true, false, not, some, List, [], Try, ok, err, ◌*◌,
}
use quorum_kv.History.{Op}
use quorum_kv.Harness.Runner.{
  Report, Options, Env, State, pure, outside, asks, ◌>>=◌, check, second,
}
use quorum_kv.Harness.Runner.Rules.{Triple, Any, Triple-pure, Triple-bind, Triple-weaken}
use quorum_kv.Checker.Check
use quorum_kv.Harness.Runner.Rules.{Triple-look, Triple-outside}
use quorum_kv.Harness.Phases.SelfTest.{
  phase_checker_self_test, read_history, read_opened, accept_good, reject_bad,
}
use quorum_kv.Harness.Run.{failed, summary, new_runner, unless_broken, phases, run, status, exit_of}
use quorum_kv.Harness.Run.Good.{failed_now, failed_before}
use quorum_kv.Harness.Run.Ended.{run-Reports}

module _ {W : Type 0} (e : Env W) where
  -- The known-bad history cannot be read, or Check accepts it.
  abbrev pub Misjudged : Try String (List Op) → Type 0
  Misjudged (err m) = Unit
  Misjudged (ok bad) = (Check.check e.porcupine bad (60 * second)).linearizable ≡ true

  module _ (o : Options) where
    -- nothing was sent, and no fault injected
    record Idle (s : State W) : Type 0 where
      same_options : s.runner.options ≡ o
      recorded : s.runner.recorded ≡ []
      events : s.runner.events ≡ []

    abbrev Stopped : State W → Type 0
    Stopped s = Idle s × (failed s.runner.report.checks ≡ true)

    Idle-moved : (s t : State W) → t.runner ≡ s.runner → Idle s → Idle t
    Idle-moved s t same h = record {
      same_options = rw same h.same_options;
      recorded = rw same h.recorded;
      events = rw same h.events;
    }

    Stopped-moved : (s t : State W) → t.runner ≡ s.runner → Stopped s → Stopped t
    Stopped-moved s t same (h, f) = (Idle-moved s t same h, rw same f)

    check-fails :
        (name detail : String) (pass : Bool)
        → pass ≡ false
        → Triple Idle Any Stopped (check name pass detail)
    unfolding check
    check-fails name detail pass p = record {
      at = λ s h. (
        tt,
        (
          record { same_options = h.same_options; recorded = h.recorded; events = h.events },
          failed_now s.runner.report.checks _ p,
        ),
      );
    }

    check-Stopped :
        (name detail : String) (pass : Bool) → Triple Stopped Any Stopped (check name pass detail)
    unfolding check
    check-Stopped name detail pass = record {
      at = λ s (h, f). (
        tt,
        (
          record { same_options = h.same_options; recorded = h.recorded; events = h.events },
          failed_before s.runner.report.checks _ f,
        ),
      );
    }

    accept_good-Stopped : (x : Try String (List Op)) → Triple Stopped Any Stopped (accept_good e x)
    accept_good-Stopped (err m) = check-Stopped _ _ _
    accept_good-Stopped (ok good) = check-Stopped _ _ _

    read_history-Stopped : (path : String) → Triple Stopped Any Stopped (read_history e path)
    unfolding read_history
    read_history-Stopped path =
        Triple-bind (Triple-outside _ λ s w h. Stopped-moved s _ refl h) λ b _. Triple-pure _ tt

    reject_bad-Stopped :
        (dir : String) (x : Try String (List Op))
        → Misjudged x
        → Triple Idle Any Stopped (reject_bad e dir x)
    reject_bad-Stopped dir (err m) h = check-fails _ _ _ refl
    reject_bad-Stopped dir (ok bad) h =
        Triple-bind (check-fails _ _ _ (ap not h))
          λ u _. Triple-bind (read_history-Stopped _) λ x _. accept_good-Stopped x

    -- the known-bad history is misjudged whenever it is read
    abbrev pub IsBroken : Type 0
    IsBroken =
        (w : W)
        → Misjudged
            (read_opened e (e.read_file (e.join o.fixtures_dir "known-bad-history.jsonl") w).0)

    module _ (broken : IsBroken) where
      fixtures : Triple Idle (λ a. a ≡ o.fixtures_dir) Idle (asks (λ r. r.options.fixtures_dir))
      unfolding asks
      fixtures = record { at = λ s h. (ap (λ p. p.fixtures_dir) h.same_options, h) }

      bad_history :
          (dir : String)
          → dir ≡ o.fixtures_dir
          → Triple Idle Misjudged Idle (read_history e (e.join dir "known-bad-history.jsonl"))
      unfolding read_history outside pure ◌>>=◌
      bad_history dir same = record {
        at = λ s h. (rw same (broken s.world), Idle-moved s _ refl h);
      }

      no_more :
          (b : Bool)
          → Triple
              (λ s. Stopped s × (failed s.runner.report.checks ≡ b))
              Any
              Stopped
              (unless_broken e b)
      no_more true = Triple-weaken (λ s h. h.0) (Triple-pure _ tt)
      no_more false = record { at = λ s ((h, f), g). absurd cc }

      phases-Stopped : Triple Idle Any Stopped (phases e)
      unfolding phases phase_checker_self_test
      phases-Stopped =
          Triple-bind
            (Triple-bind fixtures
              λ dir same. Triple-bind (bad_history dir same) λ bad m. reject_bad-Stopped dir bad m)
            λ u _. Triple-look (λ r. failed r.report.checks) no_more

-- If the known-bad history cannot be read or Check accepts it, a run that ends with a report has sent
-- nothing and injected no fault, and the harness ends with status 1.
pub broken_checker :
    {W : Type 0} (e : Env W) (o : Options) (w : W) (report : Report) (s : State W)
    → IsBroken e o
    → run e o w ≡ some (ok report, s)
    → (s.runner.recorded ≡ []) × (report.faults ≡ []) × (exit_of e (ok report) ≡ status 1)
unfolding new_runner summary exit_of
broken_checker e o w report s b h =
    let ((q, f), r) =
      run-Reports e (phases-Stopped e o b) (Stopped-moved e o) o w report s
        (λ w'. record { same_options = refl; recorded = refl; events = refl }) h in
    (q.recorded, rw r q.events, rw (r, f) refl)
