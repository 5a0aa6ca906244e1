-- ===== src/Harness/Run/Isolated.antt =====
-- The phase with an isolated leader keeps what is good, and adds its checks.
use quorum_kv.Prelude.{
  String, refl, Bool, true, false, Option, none, some, List, [], ◌∷◌, ℕ, zero, suc, ◌+◌, ◌*◌,
}
use quorum_kv.Prelude.Int.{pos}
use quorum_kv.Harness.Nodes.{Node}
use quorum_kv.Harness.Invoke.{Client}
use quorum_kv.Harness.Runner.{Options, Env, new_client, request, second}
use mathlib.Core.List.{◌++◌}
use quorum_kv.Harness.Runner.Rules.{Triple, Any, Triple-pure, Triple-stuck, Triple-if, Triple-bind}
use quorum_kv.Harness.Run.Log.{Condition}
use quorum_kv.Harness.Run.Good.{
  Good, Good-outside, Good-wait, Good-asks, Good-check, Good-check-false,
}
use quorum_kv.Harness.Run.Invoked.{Good-invoke}
use quorum_kv.Harness.Faults.{node_by_id}
use quorum_kv.Harness.Run.Faulty.{Healed, leader_id-Good, isolate-Good, heal_all-Good}
use quorum_kv.Harness.Phases.Keys.{probe_key, live_key}
use quorum_kv.Harness.Phases.Minority.{
  majority, probe_loop, write_loop, read_loop, read_if, probe_partition, probe_known,
  phase_minority_refuses_writes,
}
use quorum_kv.Fmt.{decimal}
use Prim.Native.String.{◌++◌ as ◌++ₛ◌}
use quorum_kv.Harness.Run.Members.{reset_keys-probe, reset_keys-live}

module _ {W : Type 0} (e : Env W) {o : Options} {ns : List String}
    {L : Option Condition → Type 0} where
  probe_loop-Good :
      (c : Client) (leader : Node) (n probe acked : ℕ)
      → Triple (Good o ns L) Any (Good o ns L) (probe_loop e c leader n probe acked)
  unfolding probe_loop request
  probe_loop-Good c leader zero probe acked = Triple-pure _ tt
  probe_loop-Good c leader (suc n) probe acked =
      Triple-bind
        (Good-invoke e c
          (request (pos 300) "put" probe_key ("must-not-ack-" ++ₛ decimal probe) none) (4 * second)
          true (some leader) refl (reset_keys-probe o.num_keys))
        λ a _. probe_loop-Good a.0 leader n (probe + 1) _

  write_loop-Good :
      (n deadline : ℕ) (c : Client) (i : ℕ)
      → Triple (Good o ns L) Any (Good o ns L) (write_loop e n deadline c i)
  unfolding write_loop request
  write_loop-Good zero deadline c i = Triple-stuck
  write_loop-Good (suc n) deadline c i = Triple-bind (Good-outside _) λ now _.
      Triple-if _ (Triple-pure _ tt) (
        Triple-bind
          (Good-invoke e c (request (pos 301) "put" live_key ("served-" ++ₛ decimal i) none)
            (6 * second) false none refl (reset_keys-live o.num_keys))
          λ a _.
            Triple-if _ (Triple-pure _ tt)
              (Triple-bind (Good-wait _) λ u _. write_loop-Good n deadline a.0 (i + 1)))

  read_loop-Good :
      (n deadline : ℕ) (c : Client)
      → Triple (Good o ns L) Any (Good o ns L) (read_loop e n deadline c)
  unfolding read_loop request
  read_loop-Good zero deadline c = Triple-stuck
  read_loop-Good (suc n) deadline c = Triple-bind (Good-outside _) λ now _.
      Triple-if _ (Triple-pure _ tt) (
        Triple-bind
          (Good-invoke e c (request (pos 301) "get" live_key "" none) (6 * second) false none refl
            (reset_keys-live o.num_keys))
          λ a _.
            Triple-if _ (Triple-pure _ tt)
              (Triple-bind (Good-wait _) λ u _. read_loop-Good n deadline a.0))

  read_if-Good :
      (b : Bool) (deadline : ℕ) (c : Client)
      → Triple (Good o ns L) Any (Good o ns L) (read_if e b deadline c)
  read_if-Good true deadline c = read_loop-Good e.patience deadline c
  read_if-Good false deadline c = Triple-pure _ tt

-- the names of the phase's checks, behind others
abbrev pub minority_names : List String → List String
minority_names ns = (ns ++ "minority-refuses-writes" ∷ []) ++ "majority-keeps-serving" ∷ []

module _ {W : Type 0} (e : Env W) {o : Options} {ns : List String} where
  probe_partition-Good :
      (nodes : List Node) (leader : Node)
      → Triple
          (Good o ns Healed)
          Any
          (Good o (minority_names ns) Healed)
          (probe_partition e nodes leader)
  unfolding probe_partition
  probe_partition-Good nodes leader = Triple-bind (isolate-Good e nodes leader) λ x _.
      Triple-bind (Good-wait _) λ u _.
        Triple-bind (probe_loop-Good e (new_client (pos 300) nodes) leader 4 0 0) λ acked _.
          Triple-bind (Good-outside _) λ now _.
            Triple-bind
              (write_loop-Good e e.patience (now + 30 * second)
                (new_client (pos 301) (majority nodes leader)) 0)
              λ a _.
                Triple-bind (read_if-Good e a.1 (now + 30 * second + 10 * second) a.0) λ read_ok _.
                  Triple-bind (heal_all-Good e nodes) λ v _.
                    Triple-bind (Good-wait _)
                      λ w _. Triple-bind (Good-check _ _ _ refl) λ y _. Good-check _ _ _ refl

  probe_known-Good :
      (nodes : List Node) (x : Option Node)
      → Triple (Good o ns Healed) Any (Good o (minority_names ns) Healed) (probe_known e nodes x)
  probe_known-Good nodes none = Good-check-false (minority_names ns) _ _ refl
  probe_known-Good nodes (some leader) = probe_partition-Good nodes leader

  pub phase_minority_refuses_writes-Good :
      Triple
        (Good o ns Healed)
        Any
        (Good o (minority_names ns) Healed)
        (phase_minority_refuses_writes e)
  unfolding phase_minority_refuses_writes
  phase_minority_refuses_writes-Good = Triple-bind (Good-asks _) λ nodes _.
      Triple-bind (leader_id-Good e nodes) λ id _. probe_known-Good nodes (node_by_id nodes id)
