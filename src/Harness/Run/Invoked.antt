-- ===== src/Harness/Run/Invoked.antt =====
-- What a call of Invoke keeps of the invariant of a run, and adds to the records.
use quorum_kv.Prelude.{String, ◌≡◌, refl, Bool, true, Option, List, [], ◌∷◌, ℕ}
use quorum_kv.History.{Op}
use quorum_kv.Harness.Nodes.{Node}
use quorum_kv.Harness.Invoke.{Client}
use quorum_kv.Harness.Runner.{recording, Options, Env, State, invoke_op}
use mathlib.Core.List.{◌++◌}
use quorum_kv.Prelude.{All-append}
use quorum_kv.Checker.Sound.{IsKnown}
use quorum_kv.Harness.Invoke.{invoke}
use quorum_kv.Harness.Phases.Keys.{reset_keys}
use quorum_kv.Harness.Runner.Rules.{Triple, Any, Holds, Holds-weaken}
use quorum_kv.Harness.Run.Resets.{ResetBy-append}
use quorum_kv.Harness.Run.Log.{Condition}
use quorum_kv.Harness.Run.Recorded.{Outcomes, endless, closed, invoke-Outcomes}
use quorum_kv.Harness.Run.Good.{has_key, IsUsable, Good}

-- What a call has added to the records.
pub record Adds {W : Type 0} (op : Op) (s : State W) (a : Client × Op) (t : State W) : Type 0 where
  pub recorded : t.runner.recorded ≡ s.runner.recorded ++ a.1 ∷ []
  pub same_op : a.1.op ≡ op.op
  pub same_key : a.1.key ≡ op.key

module _ {W : Type 0} (e : Env W) {o : Options} {ns : List String}
    {L : Option Condition → Type 0} where
  Good-recording :
      (s : State W) (w : W) (c : Client) (op : Op) (x : Option (Client × Op))
      → Good o ns L s
      → c.recorded ≡ s.runner.recorded
      → IsKnown op
      → has_key (reset_keys o.num_keys) op.key ≡ true
      → Outcomes c op x
      → Holds (λ a t. Good o ns L t × Adds op s a t) (recording s w x)
  Good-recording s w c op _ g same k h endless = tt
  Good-recording s w c op _ g same k h (closed c' done cl) = (
    record {
      same_options = g.same_options;
      usable =
          rw (cl.recorded, same)
            (All-append (IsUsable (reset_keys o.num_keys)) s.runner.recorded (done ∷ []) g.usable (
              record {
                known_op = rw cl.same_op k;
                classified = cl.classified;
                listed = rw cl.same_key h;
              },
              tt,
            ));
      reset =
          rw (cl.recorded, same)
            (ResetBy-append (reset_keys o.num_keys) s.runner.recorded (done ∷ [])
              s.runner.report.checks g.reset);
      log = g.log;
      names = g.names;
    },
    record { recorded = rw (cl.recorded, same); same_op = cl.same_op; same_key = cl.same_key },
  )

  pub Good-invoked :
      (c : Client) (op : Op) (deadline : ℕ) (no_proxy : Bool) (pin : Option Node)
      → IsKnown op
      → has_key (reset_keys o.num_keys) op.key ≡ true
      → (s : State W) → Good o ns L s
      → Holds (λ a t. Good o ns L t × Adds op s a t) (invoke_op e c op deadline no_proxy pin s)
  unfolding invoke_op
  Good-invoked c op deadline no_proxy pin k h s g =
      let ((start, rounds), w) = e.attempts c op deadline no_proxy pin s.world in
      let c' : Client = record c { recorded = s.runner.recorded } in
      Good-recording s w c' op (invoke c' op pin start rounds) g refl k h
        (invoke-Outcomes c' op pin start rounds)

  pub Good-invoke :
      (c : Client) (op : Op) (deadline : ℕ) (no_proxy : Bool) (pin : Option Node)
      → IsKnown op
      → has_key (reset_keys o.num_keys) op.key ≡ true
      → Triple (Good o ns L) Any (Good o ns L) (invoke_op e c op deadline no_proxy pin)
  Good-invoke c op deadline no_proxy pin k h = record {
    at = λ s g.
        Holds-weaken (invoke_op e c op deadline no_proxy pin s) (λ a t (g', _). (tt, g'))
          (Good-invoked c op deadline no_proxy pin k h s g);
  }
