-- ===== src/Harness/Run/Rounds.antt =====
-- The contention, the convergence and the last phase keep what is good, and add their check.
use quorum_kv.Prelude.{
  String, ◌≡◌, refl, true, false, Option, none, some, List, [], ◌∷◌, arith, ℕ, zero, suc, ◌+◌, ◌*◌,
}
use quorum_kv.Prelude.Int.{pos}
use quorum_kv.History.{Op}
use quorum_kv.Harness.Nodes.{Node}
use quorum_kv.Harness.Runner.{Options, Env, Run, request, second}
use mathlib.Core.List.{◌++◌}
use quorum_kv.Prelude.{◌<◌, ◌⊎◌, inl, inr}
use quorum_kv.Harness.Phases.Keys.{range}
use quorum_kv.Harness.Phases.Smoke.{Tally}
use quorum_kv.Harness.Runner.Rules.{
  Triple, Any, Triple-pure, Triple-stuck, Triple-or_stuck, Triple-if, Triple-bind,
}
use quorum_kv.Harness.Run.Log.{Condition}
use quorum_kv.Harness.Run.Good.{Good, Good-outside, Good-wait, Good-asks, Good-options, Good-check}
use quorum_kv.Harness.Run.Invoked.{Good-invoke}
use quorum_kv.Harness.Phases.Contention.{
  replicate, contend, duel, contention_round, contention_loop, contenders, phase_cas_contention,
}
use quorum_kv.Harness.Phases.Convergence.{
  NodeState, states_of, state_of, kept_state, compared, settle, converge_round, converge_loop,
}
use quorum_kv.Harness.Phases.Final.{drawing, phase_linearizability}
use quorum_kv.Harness.Run.Members.{reset_keys-arena}

module _ {W : Type 0} (e : Env W) {o : Options} {ns : List String}
    {L : Option Condition → Type 0} where
  contend-Good :
      (nodes : List Node) (round n : ℕ) (pending : List ℕ) (results : List Op)
      → round < 3
      → Triple (Good o ns L) Any (Good o ns L) (contend e nodes round n pending results)
  unfolding contend request
  contend-Good nodes round zero pending results h = Triple-pure _ tt
  contend-Good nodes round (suc n) pending results h = Triple-bind (Good-outside _) λ i _.
      Triple-bind (Triple-or_stuck _) λ j _.
        Triple-bind
          (Good-invoke e _ _ (20 * second) false none refl (reset_keys-arena o.num_keys round h))
          λ a _. contend-Good nodes round n _ _ h

  duel-Good :
      (nodes : List Node) (round : ℕ) (t : Tally)
      → round < 3
      → Triple (Good o ns L) Any (Good o ns L) (duel e nodes round t)
  unfolding duel
  duel-Good nodes round t h =
      Triple-bind
        (contend-Good nodes round contenders (range 0 contenders)
          (replicate contenders (request (pos 0) "" "" "" none)) h)
        λ rs _. Triple-pure _ tt

  contention_round-Good :
      (nodes : List Node) (round : ℕ) (t : Tally)
      → round < 3
      → Triple (Good o ns L) Any (Good o ns L) (contention_round e nodes round t)
  unfolding contention_round request
  contention_round-Good nodes round t h =
      Triple-bind
        (Good-invoke e _ _ (20 * second) false none refl (reset_keys-arena o.num_keys round h))
        λ a _. Triple-if _ (Triple-pure _ tt) (duel-Good nodes round t h)

  contention_loop-Good :
      (nodes : List Node) (n round : ℕ) (t : Tally)
      → n + round ≡ 3
      → Triple (Good o ns L) Any (Good o ns L) (contention_loop e nodes n round t)
  unfolding contention_loop
  contention_loop-Good nodes zero round t h = Triple-pure _ tt
  contention_loop-Good nodes (suc n) round t h =
      Triple-bind (contention_round-Good nodes round t (omega (arith, h)))
        λ t' _. contention_loop-Good nodes n (round + 1) t' (omega (arith, h))

  pub phase_cas_contention-Good :
      Triple (Good o ns L) Any (Good o (ns ++ "cas-single-winner" ∷ []) L) (phase_cas_contention e)
  unfolding phase_cas_contention
  phase_cas_contention-Good = Triple-bind Good-options λ o' same.
      Triple-bind
        (contention_loop-Good o'.nodes 3 0 (record { ok_all = true; detail = "" }) (omega arith))
        λ t _. Good-check _ _ _ refl

  kept_state-Good :
      (later : Run W (List NodeState)) (x : Option NodeState)
      → Triple (Good o ns L) Any (Good o ns L) later
      → Triple (Good o ns L) Any (Good o ns L) (kept_state e later x)
  kept_state-Good later none h = Triple-pure _ tt
  kept_state-Good later (some s) h = Triple-bind h λ rest _. Triple-pure _ tt

  states_of-Good : (nodes : List Node) → Triple (Good o ns L) Any (Good o ns L) (states_of e nodes)
  unfolding states_of
  states_of-Good [] = Triple-pure _ tt
  states_of-Good (n ∷ nodes) =
      Triple-bind (Good-outside _)
        λ body _. kept_state-Good (states_of e nodes) (state_of e body) (states_of-Good nodes)

  settle-Good :
      (again : String → Run W (Unit {0})) (x : String ⊎ String)
      → ((d : String)
          → Triple (Good o ns L) Any (Good o (ns ++ "replicas-converge" ∷ []) L) (again d))
      → Triple (Good o ns L) Any (Good o (ns ++ "replicas-converge" ∷ []) L) (settle e again x)
  settle-Good again (inl d) h = Good-check _ _ _ refl
  settle-Good again (inr d) h = Triple-bind (Good-wait _) λ u _. h d

  converge_round-Good :
      (nodes : List Node) (again : String → Run W (Unit {0}))
      → ((d : String)
          → Triple (Good o ns L) Any (Good o (ns ++ "replicas-converge" ∷ []) L) (again d))
      → Triple
          (Good o ns L)
          Any
          (Good o (ns ++ "replicas-converge" ∷ []) L)
          (converge_round e nodes again)
  unfolding converge_round
  converge_round-Good nodes again h =
      Triple-bind (states_of-Good nodes) λ states _. settle-Good again (compared e states) h

  pub converge_loop-Good :
      (n deadline : ℕ) (nodes : List Node) (d : String)
      → Triple
          (Good o ns L)
          Any
          (Good o (ns ++ "replicas-converge" ∷ []) L)
          (converge_loop e n deadline nodes d)
  unfolding converge_loop
  converge_loop-Good zero deadline nodes d = Triple-stuck
  converge_loop-Good (suc n) deadline nodes d = Triple-bind (Good-outside _) λ now _.
      Triple-if _ (Good-check _ _ _ refl) (
        converge_round-Good nodes (converge_loop e n deadline nodes)
          (λ d'. converge_loop-Good n deadline nodes d'))

  drawing-Good : (path : String) → Triple (Good o ns L) Any (Good o ns L) (drawing e path)
  unfolding drawing
  drawing-Good path = Triple-bind (Good-outside _) λ b _. Triple-pure _ tt

  pub phase_linearizability-Good :
      Triple
        (Good o ns L)
        Any
        (Good o (ns ++ "history-linearizable" ∷ []) L)
        (phase_linearizability e)
  unfolding phase_linearizability
  phase_linearizability-Good = Triple-bind (Good-asks _) λ ops _. Triple-bind (Good-asks _) λ o' _.
      Triple-bind (Triple-if _ (Triple-pure _ tt) (drawing-Good _)) λ more _. Good-check _ _ _ refl
