-- ===== src/Harness/Run/Cleared.antt =====
-- The phase of the reset deletes every key of its list, and adds its check.
use quorum_kv.Prelude.{
  String, ◌≡◌, refl, sym, ap, ◌∙◌, true, false, Option, none, List, [], ◌∷◌, ◌++◌, ◌==◌, ℕ, ◌+◌,
  ◌*◌, ◌≤◌, nat_eq, eq_iff, arith, if◌then◌else◌, All,
}
use mathlib.Core.List.{append_assoc, append-nil}
use mathlib.Core.Path.{subst}
use quorum_kv.Prelude.Int.{pos}
use quorum_kv.History.{Op, outcome_ok}
use quorum_kv.Harness.Invoke.{Client}
use quorum_kv.Harness.Runner.{
  Options, Env, State, request, second, ◌>>=◌, pure, asks, invoke_op, new_client,
}
use quorum_kv.Harness.Phases.Keys.{reset_keys}
use quorum_kv.Harness.Phases.Reset.{reset_loop, phase_reset}
use quorum_kv.Harness.Runner.Rules.{Triple, Any, Holds, Holds-weaken, Holds-continue}
use quorum_kv.Harness.Run.Log.{Condition}
use quorum_kv.Harness.Run.Members.{All-has_key}
use quorum_kv.Harness.Run.Resets.{Deletes}
use quorum_kv.Harness.Run.Good.{has_key, Good, Good-reset}
use quorum_kv.Harness.Run.Invoked.{Good-invoked, Adds}
use quorum_kv.Harness.Run.Quiet.{Fresh}

module _ {W : Type 0} (o : Options) (ns : List String) (L : Option Condition → Type 0) where
  -- What the loop of the reset has done: it has added a delete of each key to the records, and counted
  -- those that were not acknowledged.
  record Cleared (ks : List String) (n : ℕ) (s : State W) (n' : ℕ) (t : State W) : Type 0 where
    good : Good o ns L t
    news : List Op
    recorded : t.runner.recorded ≡ s.runner.recorded ++ news
    deletes : Deletes (nat_eq n' 0) ks news
    grows : n ≤ n'

  Cleared-cons :
      (k : String) (ks : List String) (n n' : ℕ) (s t u : State W) (op : Op) (a : Client × Op)
      → op.op ≡ "delete"
      → op.key ≡ k
      → Adds op s a t
      → Cleared ks (if a.1.outcome == outcome_ok then n else n + 1) t n' u
      → Cleared (k ∷ ks) n s n' u
  Cleared-cons k ks n n' s t u op a d q adds c =
      let grown = c.grows in
      record {
        good = c.good;
        news = a.1 ∷ c.news;
        recorded =
            c.recorded
            ∙ ap (λ l. l ++ c.news) adds.recorded
            ∙ append_assoc s.runner.recorded (a.1 ∷ []) c.news;
        deletes = (
          adds.same_op ∙ d,
          (
            adds.same_key ∙ q,
            (λ z. ground (arith, z, grown, eq_iff a.1.outcome outcome_ok), c.deletes),
          ),
        );
        grows = ground (arith, grown);
      }

module _ {W : Type 0} (e : Env W) {o : Options} {ns : List String}
    {L : Option Condition → Type 0} where
  reset_loop-Cleared :
      (c : Client) (ks : List String) (n : ℕ)
      → All (λ k. has_key (reset_keys o.num_keys) k ≡ true) ks
      → (s : State W) → Good o ns L s
      → Holds (Cleared o ns L ks n s) (reset_loop e c ks n s)
  unfolding reset_loop request ◌>>=◌ pure
  reset_loop-Cleared c [] n h s g = record {
    good = g;
    news = [];
    recorded = sym (append-nil s.runner.recorded);
    deletes = tt;
    grows = omega arith;
  }
  reset_loop-Cleared c (k ∷ ks) n h s g =
      let op : Op = request (pos 999) "delete" k "" none in
      Holds-continue _ (invoke_op e c op (20 * second) false none s) _
        (Good-invoked e c op (20 * second) false none refl h.0 s g)
        λ a t (g', adds).
          Holds-weaken (reset_loop e a.0 ks (if a.1.outcome == outcome_ok then n else n + 1) t)
            (λ n' u. Cleared-cons o ns L k ks n n' s t u op a refl refl adds)
            (reset_loop-Cleared a.0 ks _ h.1 t g')

  pub phase_reset-Good :
      Triple
        (λ s. Good o ns L s × Fresh s)
        Any
        (Good o (ns ++ "reset-initial-state" ∷ []) L)
        (phase_reset e)
  unfolding phase_reset ◌>>=◌ asks
  phase_reset-Good = record {
    at = λ s (g, fresh).
        let keys = reset_keys s.runner.options.num_keys in
        Holds-continue _ (reset_loop e (new_client (pos 999) s.runner.options.nodes) keys 0 s) _
          (reset_loop-Cleared _ keys 0 (rw g.same_options (All-has_key (reset_keys o.num_keys))) s
            g)
          λ n t c. Good-reset (nat_eq n 0) _ t c.good (
            subst (λ l. Deletes (nat_eq n 0) (reset_keys o.num_keys) l)
              (sym (c.recorded ∙ ap (λ l. l ++ c.news) fresh))
              (subst (λ x. Deletes (nat_eq n 0) (reset_keys x.num_keys) c.news) g.same_options
                c.deletes));
  }
