-- ===== src/Harness/Run/Durable.antt =====
-- The durability phase and the phase with an isolated leader keep what is good, and add their checks.
use quorum_kv.Prelude.{
  String, ◌≡◌, refl, true, false, Option, none, some, List, [], ◌∷◌, arith, ℕ, zero, suc, ◌+◌, ◌*◌,
}
use quorum_kv.Prelude.Int.{ℤ, pos}
use quorum_kv.History.{Op}
use quorum_kv.Harness.Nodes.{Node}
use quorum_kv.Harness.Invoke.{Client}
use quorum_kv.Harness.Runner.{Options, Env, new_client, request, second}
use mathlib.Core.List.{◌++◌}
use quorum_kv.Prelude.{◌<◌}
use quorum_kv.Harness.Runner.Rules.{
  Triple, Any, Triple-pure, Triple-stuck, Triple-if, Triple-bind, Triple-weaken,
}
use quorum_kv.Harness.Run.Log.{Condition, killed}
use quorum_kv.Harness.Run.Good.{Good, Good-outside, Good-wait, Good-options, Good-check}
use quorum_kv.Harness.Run.Invoked.{Good-invoke}
use quorum_kv.Harness.Faults.{exec, node_by_id}
use quorum_kv.Harness.Run.Faulty.{
  Healed, InOrder, Good-relax, relax-Healed, leader_id-Good, kill-Good, heal_all-Good,
}
use quorum_kv.Harness.Phases.Keys.{durable_key}
use quorum_kv.Harness.Phases.Smoke.{Tally}
use quorum_kv.Harness.Phases.Durability.{
  precious, kill_known, kill_leader, read_back, judged, durability_loop, start_deferred,
  phase_leader_kill_durability,
}
use quorum_kv.Harness.Run.Members.{reset_keys-durable}

module _ {W : Type 0} (e : Env W) {o : Options} {ns : List String} where
  kill_known-Good :
      (deferred : List Node) (x : Option Node)
      → Triple (Good o ns Healed) Any (Good o ns InOrder) (kill_known e deferred x)
  kill_known-Good deferred none = relax-Healed (Triple-pure _ tt)
  kill_known-Good deferred (some n) =
      Triple-weaken (Good-relax λ l p. (killed n.id, p))
        (Triple-bind (kill-Good e n) λ u _. Triple-pure _ tt)

  kill_leader-Good :
      (nodes deferred : List Node)
      → Triple (Good o ns Healed) Any (Good o ns InOrder) (kill_leader e nodes deferred)
  unfolding kill_leader
  kill_leader-Good nodes deferred =
      Triple-bind (leader_id-Good e nodes) λ id _. kill_known-Good deferred (node_by_id nodes id)

  start_deferred-Good :
      {L : Option Condition → Type 0} (nodes : List Node)
      → Triple (Good o ns L) Any (Good o ns L) (start_deferred e nodes)
  unfolding start_deferred exec
  start_deferred-Good [] = Triple-pure _ tt
  start_deferred-Good (n ∷ nodes) = Triple-bind (Good-outside _) λ r _. start_deferred-Good nodes

module _ {W : Type 0} (e : Env W) {o : Options} {ns : List String}
    {L : Option Condition → Type 0} where
  read_back-Good :
      (n deadline : ℕ) (c : Client) (id : ℤ) (i : ℕ) (got : Op)
      → i < 3
      → Triple (Good o ns L) Any (Good o ns L) (read_back e n deadline c id (durable_key i) got)
  unfolding read_back request
  read_back-Good zero deadline c id i got h = Triple-stuck
  read_back-Good (suc n) deadline c id i got h = Triple-bind (Good-outside _) λ now _.
      Triple-if _ (Triple-pure _ tt) (
        Triple-bind
          (Good-invoke e c (request id "get" (durable_key i) "" none) (5 * second) false none refl
            (reset_keys-durable o.num_keys i h))
          λ a _.
            Triple-if _ (Triple-pure _ tt)
              (Triple-bind (Good-wait _) λ u _. read_back-Good n deadline a.0 id i a.1 h))

module _ {W : Type 0} (e : Env W) {o : Options} {ns : List String} where
  durability_loop-Good :
      (nodes : List Node) (n i : ℕ) (t : Tally) (deferred : List Node)
      → n + i ≡ 3
      → Triple (Good o ns Healed) Any (Good o ns Healed) (durability_loop e nodes n i t deferred)
  unfolding durability_loop request
  durability_loop-Good nodes zero i t deferred h = Triple-pure _ tt
  durability_loop-Good nodes (suc n) i t deferred h =
      Triple-bind
        (Good-invoke e (new_client (pos (200 + i)) nodes)
          (request (pos (200 + i)) "put" (durable_key i) (precious i) none) (20 * second) false none
          refl (reset_keys-durable o.num_keys i (omega (arith, h))))
        λ a _. Triple-if _ (durability_loop-Good nodes n (i + 1) _ deferred (omega (arith, h))) (
          Triple-bind (kill_leader-Good e nodes deferred) λ d _.
            Triple-bind (Good-outside _) λ now _.
              Triple-bind
                (read_back-Good e e.patience (now + 45 * second) a.0 (pos (200 + i)) i
                  (request (pos 0) "" "" "" none) (omega (arith, h)))
                λ got _. Triple-bind (heal_all-Good e nodes) λ u _. Triple-bind (Good-wait _) λ v _.
                  durability_loop-Good nodes n (i + 1) (judged e i got t) d (omega (arith, h)))

  pub phase_leader_kill_durability-Good :
      Triple
        (Good o ns Healed)
        Any
        (Good o (ns ++ "acked-write-survives-leader-kill" ∷ []) Healed)
        (phase_leader_kill_durability e)
  unfolding phase_leader_kill_durability
  phase_leader_kill_durability-Good = Triple-bind Good-options λ o' same.
      Triple-bind
        (durability_loop-Good o'.nodes 3 0 (record { ok_all = true; detail = "" }) [] (omega arith))
        λ r _. Triple-bind (Good-check _ _ _ refl) λ u _. start_deferred-Good e r.1
