-- ===== src/Harness/Run/Shaken.antt =====
-- The chaos phase and the convergence phase keep what is good, and add their checks.
use quorum_kv.Prelude.{refl}
use quorum_kv.Prelude.{
  String, ◌≡◌, Bool, true, false, Option, none, some, List, [], ◌∷◌, length, ℕ, zero, suc, ◌+◌, ◌%◌,
  ◌*◌, nat_eq,
}
use quorum_kv.Harness.Nodes.{Node}
use quorum_kv.Harness.Invoke.{Client}
use quorum_kv.Harness.Runner.{Options, Env, pure, stuck, or_stuck, ms, second}
use mathlib.Core.List.{◌++◌}
use quorum_kv.Harness.Runner.Rules.{
  Triple, Any, Triple-pure, Triple-stuck, Triple-or_stuck, Triple-if, Triple-bind,
}
use quorum_kv.Harness.Run.Log.{Condition}
use quorum_kv.Harness.Run.Good.{Good, Good-outside, Good-wait, Good-asks, Good-options, Good-check}
use quorum_kv.Harness.Run.Invoked.{Good-invoke}
use quorum_kv.Harness.Run.Faulty.{
  Healed, relax_start, leader_id-Good, kill-Good, start-Good, isolate-Good, heal_all-Good,
}
use quorum_kv.Harness.Invoke.{Client}
use quorum_kv.Harness.Workload.{get_elem?, intn, next_op}
use quorum_kv.Harness.Phases.Keys.{workload_keys}
use quorum_kv.Harness.Phases.Chaos.{
  chaos_clients, client_turn, turn_at, turns, sleeping, known_or_drawn, choose_target, kill_round,
  partition_round, fault_round, chaos_loop, phase_chaos,
}
use quorum_kv.Harness.Phases.Convergence.{phase_convergence}
use quorum_kv.Harness.Run.Rounds.{converge_loop-Good}
use quorum_kv.Harness.Run.Work.{IsWork, random_op-IsWork}

module _ {W : Type 0} (e : Env W) {o : Options} {ns : List String}
    {L : Option Condition → Type 0} where
  intn-Good : (n : ℕ) → Triple (Good o ns L) Any (Good o ns L) (intn e n)
  unfolding intn
  intn-Good zero = Triple-stuck
  intn-Good (suc n) = Good-outside _

  next_op-Good :
      (c : Client)
      → Triple
          (Good o ns L)
          (λ a. IsWork o.num_keys a.1)
          (Good o ns L)
          (next_op e c (workload_keys o.num_keys))
  unfolding next_op
  next_op-Good c = Triple-bind (intn-Good _) λ i _. Triple-bind (Triple-or_stuck _) λ key h.
      Triple-bind (Good-outside _) λ noise _. Triple-bind (Good-outside _) λ r _.
        Triple-bind (Triple-if _ (Good-outside _) (Triple-pure _ tt))
          λ absent _. Triple-pure _ (random_op-IsWork o.num_keys c i key noise r absent h)

  client_turn-Good :
      (c : Client)
      → Triple (Good o ns L) Any (Good o ns L) (client_turn e (workload_keys o.num_keys) c)
  unfolding client_turn
  client_turn-Good c = Triple-bind (next_op-Good c) λ a h.
      Triple-bind (Good-invoke e a.0 a.1 (8 * second) false none h.0 h.1)
        λ b _. Triple-bind (intn-Good 40) λ d _. Triple-bind (Good-wait _) λ u _. Triple-pure _ tt

  turn_at-Good :
      (i : ℕ) (cs : List Client) (x : Option Client)
      → Triple (Good o ns L) Any (Good o ns L) (turn_at e (workload_keys o.num_keys) i cs x)
  turn_at-Good i cs none = Triple-pure _ tt
  turn_at-Good i cs (some c) = Triple-bind (client_turn-Good c) λ c' _. Triple-pure _ tt

  turns-Good :
      (is : List ℕ) (cs : List Client)
      → Triple (Good o ns L) Any (Good o ns L) (turns e (workload_keys o.num_keys) is cs)
  unfolding turns
  turns-Good [] cs = Triple-pure _ tt
  turns-Good (i ∷ is) cs =
      Triple-bind (turn_at-Good i cs (get_elem? cs i)) λ cs' _. turns-Good is cs'

  sleeping-Good :
      (d : ℕ) (cs : List Client)
      → Triple (Good o ns L) Any (Good o ns L) (sleeping e (workload_keys o.num_keys) d cs)
  unfolding sleeping
  sleeping-Good d cs =
      Triple-bind (Good-wait _) λ u _. Triple-bind (Good-outside _) λ is _. turns-Good is cs

  or_stuck-Good :
      {A : Type 0} (x : Option A) → Triple (Good {W = W} o ns L) Any (Good o ns L) (or_stuck x)
  unfolding stuck pure
  or_stuck-Good none = Triple-stuck
  or_stuck-Good (some n) = Triple-pure _ tt

  known_or_drawn-Good :
      (nodes : List Node) (x : Option Node)
      → Triple (Good o ns L) Any (Good o ns L) (known_or_drawn e nodes x)
  known_or_drawn-Good nodes (some n) = Triple-pure _ tt
  known_or_drawn-Good nodes none =
      Triple-bind (intn-Good (length nodes)) λ i _. or_stuck-Good (get_elem? nodes i)

  choose_target-Good :
      (nodes : List Node) (mode : ℕ)
      → Triple (Good o ns L) Any (Good o ns L) (choose_target e nodes mode)
  unfolding choose_target
  choose_target-Good nodes mode =
      Triple-bind (Triple-if _ (leader_id-Good e nodes) (Triple-pure _ tt))
        λ id _. known_or_drawn-Good nodes _

module _ {W : Type 0} (e : Env W) {o : Options} {ns : List String} where
  kill_round-Good :
      (n : Node) (cs : List Client)
      → Triple
          (Good o ns Healed)
          Any
          (Good o ns Healed)
          (kill_round e (workload_keys o.num_keys) n cs)
  unfolding kill_round
  kill_round-Good n cs = Triple-bind (kill-Good e n) λ x _. Triple-bind (intn-Good e 5000) λ d _.
      Triple-bind (sleeping-Good e ((3000 + d) * ms) cs)
        λ cs' _. Triple-bind (start-Good e n) λ y _. Triple-pure _ tt

  partition_round-Good :
      (nodes : List Node) (n : Node) (cs : List Client)
      → Triple
          (Good o ns Healed)
          Any
          (Good o ns Healed)
          (partition_round e nodes (workload_keys o.num_keys) n cs)
  unfolding partition_round
  partition_round-Good nodes n cs = Triple-bind (isolate-Good e nodes n) λ x _.
      Triple-bind (intn-Good e 8000) λ d _.
        Triple-bind (sleeping-Good e ((5000 + d) * ms) cs)
          λ cs' _. Triple-bind (heal_all-Good e nodes) λ y _. Triple-pure _ tt

  fault_round-Good :
      (nodes : List Node) (n : Node) (cs : List Client) (b : Bool)
      → Triple
          (Good o ns Healed)
          Any
          (Good o ns Healed)
          (fault_round e nodes (workload_keys o.num_keys) n cs b)
  fault_round-Good nodes n cs true = kill_round-Good n cs
  fault_round-Good nodes n cs false = partition_round-Good nodes n cs

  chaos_loop-Good :
      (n end_ : ℕ) (nodes : List Node) (cs : List Client)
      → Triple
          (Good o ns Healed)
          Any
          (Good o ns Healed)
          (chaos_loop e n end_ nodes (workload_keys o.num_keys) cs)
  unfolding chaos_loop
  chaos_loop-Good zero end_ nodes cs = Triple-stuck
  chaos_loop-Good (suc n) end_ nodes cs = Triple-bind (Good-outside _) λ now _.
      Triple-if _ (Triple-pure _ tt) (
        Triple-bind (intn-Good e 3000) λ d _.
          Triple-bind (sleeping-Good e ((2000 + d) * ms) cs) λ cs1 _.
            Triple-bind (intn-Good e 4) λ mode _.
              Triple-bind (choose_target-Good e nodes mode) λ target _.
                Triple-bind (fault_round-Good nodes target cs1 (nat_eq (mode % 2) 0)) λ cs2 _.
                  Triple-bind (intn-Good e 2000) λ d' _.
                    Triple-bind (sleeping-Good e ((1000 + d') * ms) cs2)
                      λ cs3 _. chaos_loop-Good n end_ nodes cs3)

  chaos-Good :
      (o' : Options) (now : ℕ)
      → o' ≡ o
      → Triple (Good o ns Healed) Any (Good o ns Healed) (
          chaos_loop e e.patience
            (now + o'.duration)
            o'.nodes
            (workload_keys o'.num_keys)
            (chaos_clients o'.nodes o'.num_clients))
  chaos-Good o' now same =
      rw same (
        chaos_loop-Good e.patience (now + o.duration) o.nodes (chaos_clients o.nodes o.num_clients))

  last_turns-Good :
      (o' : Options) (is : List ℕ) (cs : List Client)
      → o' ≡ o
      → Triple (Good o ns Healed) Any (Good o ns Healed) (turns e (workload_keys o'.num_keys) is cs)
  last_turns-Good o' is cs same = rw same (turns-Good e is cs)

  pub phase_chaos-Good :
      Triple (Good o ns Healed) Any (Good o (ns ++ "chaos-completed" ∷ []) Healed) (phase_chaos e)
  unfolding phase_chaos
  phase_chaos-Good = Triple-bind Good-options λ o' same. Triple-bind (Good-outside _) λ now _.
      Triple-bind (chaos-Good o' now same) λ cs _. Triple-bind (Good-outside _) λ is _.
        Triple-bind (last_turns-Good o' is cs same) λ cs' _.
          Triple-bind (relax_start (heal_all-Good e o'.nodes))
            λ u _. Triple-bind (Good-asks _) λ n _. Good-check _ _ _ refl

  pub phase_convergence-Good :
      Triple
        (Good o ns Healed)
        Any
        (Good o (ns ++ "replicas-converge" ∷ []) Healed)
        (phase_convergence e)
  unfolding phase_convergence
  phase_convergence-Good = Triple-bind (Good-asks _) λ nodes _.
      Triple-bind (relax_start (heal_all-Good e nodes)) λ u _.
        Triple-bind (Good-outside _)
          λ now _. converge_loop-Good e e.patience (now + 90 * second) nodes ""
