-- ===== src/Harness/Run/Good.antt =====
-- What every phase of a run keeps, and how its single actions do.
use quorum_kv.Prelude.{
  String, ◌≡◌, refl, Bool, true, false, ◌||◌, not, Option, List, [], ◌∷◌, map, ◌==◌, arith,
}
use quorum_kv.History.{Op}
use quorum_kv.Harness.Runner.{
  CheckResult, FaultEvent, Options, Runner, Env, State, outside, asks, wait, add_event, check,
}
use mathlib.Core.List.{◌++◌, map-append}
use quorum_kv.Prelude.{inl, inr, ◌⊎◌, All, All-append}
use quorum_kv.Checker.Sound.{IsKnown}
use quorum_kv.Harness.Run.{failed}
use quorum_kv.Harness.Phases.Keys.{reset_keys}
use quorum_kv.Harness.Faults.{record_event}
use quorum_kv.Harness.Runner.Rules.{Triple, Any, Holds, Triple-bind}
use quorum_kv.Harness.Run.Resets.{reset_check, Deletes, ResetBy, ResetBy-other}
use quorum_kv.Harness.Run.Log.{Condition, condition_after}
use quorum_kv.Harness.Run.Recorded.{is_classified}

unfoldable pub has_key : List String → String → Bool
has_key [] k = false
has_key (j ∷ js) k = j == k || has_key js k

-- A record that the checker can use: of a known operation, with one of the three outcomes, and on a key
-- of the list.
pub record IsUsable (keys : List String) (o : Op) : Type 0 where
  pub known_op : IsKnown o
  pub classified : is_classified o.outcome ≡ true
  pub listed : has_key keys o.key ≡ true

abbrev pub names_of : List CheckResult → List String
names_of = map (λ c. c.name)

-- The options are those of the run; every record is usable, on the keys that were reset; the fault log
-- is in the condition `L`; the check of the reset is true of the records; the checks so far have these names, unless one has failed.
pub record Good {W : Type 0} (o : Options) (ns : List String) (L : Option Condition → Type 0)
    (s : State W) : Type 0 where
  pub same_options : s.runner.options ≡ o
  pub usable : All (IsUsable (reset_keys o.num_keys)) s.runner.recorded
  pub log : L (condition_after s.runner.events)
  pub reset : All (ResetBy (reset_keys o.num_keys) s.runner.recorded) s.runner.report.checks
  pub names : (failed s.runner.report.checks ≡ true) ⊎ (names_of s.runner.report.checks ≡ ns)

pub failed-append :
    (cs : List CheckResult) (c : CheckResult) → failed (cs ++ c ∷ []) ≡ (failed cs || not c.pass)
unfolding failed
failed-append [] c = ground arith
failed-append (x ∷ cs) c = ground (arith, failed-append cs c)

pub failed_before :
    (cs : List CheckResult) (c : CheckResult) → failed cs ≡ true → failed (cs ++ c ∷ []) ≡ true
failed_before cs c h = rw (failed-append cs c, h)

pub failed_now :
    (cs : List CheckResult) (c : CheckResult) → c.pass ≡ false → failed (cs ++ c ∷ []) ≡ true
failed_now cs c h = ground (arith, failed-append cs c)

named :
    (cs : List CheckResult) (c : CheckResult) (ns : List String)
    → (failed cs ≡ true) ⊎ (names_of cs ≡ ns)
    → (failed (cs ++ c ∷ []) ≡ true) ⊎ (names_of (cs ++ c ∷ []) ≡ ns ++ c.name ∷ [])
named cs c ns (inl h) = inl (failed_before cs c h)
named cs c ns (inr h) = inr (rw (map-append, h))

module _ {W : Type 0} {o : Options} {ns : List String} {L : Option Condition → Type 0} where
  pub Good-outside :
      {A : Type 0} (f : W → A × W) → Triple (Good o ns L) Any (Good o ns L) (outside f)
  unfolding outside
  Good-outside f = record {
    at = λ s g. (
      tt,
      record {
        same_options = g.same_options;
        usable = g.usable;
        reset = g.reset;
        log = g.log;
        names = g.names;
      },
    );
  }

  pub Good-wait : (f : W → W) → Triple (Good o ns L) Any (Good o ns L) (wait f)
  unfolding wait
  Good-wait f = record {
    at = λ s g. (
      tt,
      record {
        same_options = g.same_options;
        usable = g.usable;
        reset = g.reset;
        log = g.log;
        names = g.names;
      },
    );
  }

  pub Good-asks :
      {A : Type 0} (f : Runner → A) → Triple (Good {W = W} o ns L) Any (Good o ns L) (asks f)
  unfolding asks
  Good-asks f = record { at = λ s g. (tt, g) }

  pub Good-options : Triple (Good {W = W} o ns L) (λ a. a ≡ o) (Good o ns L) (asks (λ r. r.options))
  unfolding asks
  Good-options = record { at = λ s g. (g.same_options, g) }

  pub Good-check :
      (name : String) (pass : Bool) (detail : String)
      → (name == reset_check) ≡ false
      → Triple (Good {W = W} o ns L) Any (Good o (ns ++ name ∷ []) L) (check name pass detail)
  unfolding check
  Good-check name pass detail n = record {
    at = λ s g.
        let c : CheckResult = record { name = name; pass = pass; detail = detail } in
        (
          tt,
          record {
            same_options = g.same_options;
            usable = g.usable;
            reset =
                ResetBy-other (reset_keys o.num_keys) s.runner.recorded s.runner.report.checks c n
                  g.reset;
            log = g.log;
            names = named s.runner.report.checks c ns g.names;
          },
        );
  }

  -- a check that fails
  pub Good-check-false :
      (names_after : List String) (name : String) (detail : String)
      → (name == reset_check) ≡ false
      → Triple (Good {W = W} o ns L) Any (Good o names_after L) (check name false detail)
  unfolding check
  Good-check-false names_after name detail n = record {
    at = λ s g.
        let c : CheckResult = record { name = name; pass = false; detail = detail } in
        (
          tt,
          record {
            same_options = g.same_options;
            usable = g.usable;
            reset =
                ResetBy-other (reset_keys o.num_keys) s.runner.recorded s.runner.report.checks c n
                  g.reset;
            log = g.log;
            names = inl (failed_now s.runner.report.checks _ refl);
          },
        );
  }

  -- the check of the reset
  pub Good-reset :
      (pass : Bool) (detail : String) (s : State W)
      → Good {W = W} o ns L s
      → Deletes pass (reset_keys o.num_keys) s.runner.recorded
      → Holds (λ a t. Any a × Good o (ns ++ reset_check ∷ []) L t) (check reset_check pass detail s)
  unfolding check
  Good-reset pass detail s g d =
      let c : CheckResult = record { name = reset_check; pass = pass; detail = detail } in
      (
        tt,
        record {
          same_options = g.same_options;
          usable = g.usable;
          reset =
              All-append (ResetBy (reset_keys o.num_keys) s.runner.recorded) s.runner.report.checks
                (c ∷ []) g.reset (λ e. d, tt);
          log = g.log;
          names = named s.runner.report.checks c ns g.names;
        },
      )

module _ {W : Type 0} (e : Env W) {o : Options} {ns : List String} where
  -- an event after which the log is in another condition
  pub Good-event :
      (L M : Option Condition → Type 0) (action target detail : String)
      → ((evs : List FaultEvent) (ev : FaultEvent)
          → L (condition_after evs)
          → ev.action ≡ action
          → ev.target ≡ target
          → M (condition_after (evs ++ ev ∷ [])))
      → Triple (Good {W = W} o ns L) Any (Good o ns M) (record_event e action target detail)
  unfolding record_event
  Good-event L M action target detail h = Triple-bind (Good-outside (λ w. (e.clock w, w))) (λ now _.
      record {
        at = λ s g.
            unfold add_event in
            (
              tt,
              record {
                same_options = g.same_options;
                usable = g.usable;
                reset = g.reset;
                log = h s.runner.events _ g.log refl refl;
                names = g.names;
              },
            );
      })
