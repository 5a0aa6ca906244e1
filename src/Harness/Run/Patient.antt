-- ===== src/Harness/Run/Patient.antt =====
-- The durability phase, the phase with an isolated leader and the convergence phase come to an end.
use quorum_kv.Prelude.{
  ◌≡◌, Bool, true, false, Option, none, some, List, [], ◌∷◌, arith, length, ap, ℕ, zero, suc, ◌+◌,
  ◌*◌, ◌<◌, ◌≤◌,
}
use quorum_kv.Harness.Nodes.{Node}
use quorum_kv.Harness.Invoke.{Client}
use quorum_kv.Harness.Runner.{Env, Options, asks}
use quorum_kv.Harness.Runner.Rules.{Any}
use quorum_kv.Harness.Runner.Total.{
  Lawful, Total, Total-pure, Total-asks, Total-either, Total-weaken, Total-bind,
}
use quorum_kv.Prelude.Int.{pos}
use quorum_kv.Harness.Runner.{new_client, request, second}
use quorum_kv.Harness.Faults.{node_by_id}
use quorum_kv.Harness.Runner.Steady.{
  Total-options, Total-check, Total-clock, Total-rest, Total-exec, Total-invoke, Total-kill,
  Total-isolate, Total-heal_all, Total-leader_id,
}
use quorum_kv.Harness.Phases.Smoke.{Tally}
use quorum_kv.Harness.Run.Timed.{
  pause, Enough, Enough-start, converge_loop-Total, read_back-Total, write_loop-Total,
  read_loop-Total,
}
use quorum_kv.Harness.Phases.Keys.{durable_key}
use quorum_kv.Harness.Phases.Durability.{
  kill_known, kill_leader, judged, durability_loop, start_deferred, phase_leader_kill_durability,
}
use quorum_kv.Harness.Phases.Minority.{
  majority, probe_loop, read_if, probe_partition, probe_known, phase_minority_refuses_writes,
}
use quorum_kv.Harness.Phases.Convergence.{phase_convergence}

-- Among these nodes there is one besides any other.
abbrev pub HasMajority : List Node → Type 0
HasMajority nodes = (n : Node) → 0 < length (majority nodes n)

module _ {W : Type 0} {e : Env W} (l : Lawful e) {o : Options} where
  kill_known-Total :
      {c : ℕ} (deferred : List Node) (x : Option Node) → Total e o c c Any (kill_known e deferred x)
  kill_known-Total deferred none = Total-pure _ tt
  kill_known-Total deferred (some n) = Total-bind (Total-kill l n) λ u _. Total-pure _ tt

  start_deferred-Total : {c : ℕ} (nodes : List Node) → Total e o c c Any (start_deferred e nodes)
  unfolding start_deferred
  start_deferred-Total [] = Total-pure _ tt
  start_deferred-Total (n ∷ nodes) = Total-bind (Total-exec l _) λ r _. start_deferred-Total nodes

  durability_loop-Total :
      {c : ℕ} (nodes : List Node) (n i : ℕ) (t : Tally) (deferred : List Node)
      → 0 < length nodes
      → 90 * second + pause ≤ e.patience * pause
      → Total e o c c Any (durability_loop e nodes n i t deferred)
  unfolding durability_loop new_client kill_leader
  durability_loop-Total nodes zero i t deferred h p = Total-pure _ tt
  durability_loop-Total {c} nodes (suc n) i t deferred h p =
      Total-bind (Total-invoke l (new_client (pos (200 + i)) nodes) _ (20 * second) false none h)
        λ a same. Total-either _ (durability_loop-Total nodes n (i + 1) _ deferred h p) (
          Total-bind
            (Total-bind (Total-leader_id l nodes)
              λ id _. kill_known-Total deferred (node_by_id nodes id))
            λ d _. Total-clock λ now later.
              Total-bind
                (read_back-Total l e.patience (now + 45 * second) a.0 (pos (200 + i))
                  (durable_key i) (request (pos 0) "" "" "" none) (rw same h)
                  (Enough-start e.patience (45 * second) now (omega (arith, p))))
                λ got _. Total-bind (Total-heal_all l nodes) λ u _.
                  Total-bind (Total-rest l _) λ v _.
                    Total-weaken (omega arith) later
                      (durability_loop-Total {c = now} nodes n (i + 1) (judged e i got t) d h p))

  pub phase_leader_kill_durability-Total :
      {c : ℕ}
      → 0 < length o.nodes
      → 90 * second + pause ≤ e.patience * pause
      → Total e o c c Any (phase_leader_kill_durability e)
  unfolding phase_leader_kill_durability
  phase_leader_kill_durability-Total h p = Total-bind Total-options λ o' same.
      Total-bind
        (durability_loop-Total o'.nodes 3 0 (record { ok_all = true; detail = "" }) [] (rw same h)
          p)
        λ r _. Total-bind (Total-check _ _ _) λ u _. start_deferred-Total r.1

  probe_loop-Total :
      {c : ℕ} (client : Client) (leader : Node) (n probe acked : ℕ)
      → 0 < length client.nodes
      → Total e o c c Any (probe_loop e client leader n probe acked)
  unfolding probe_loop
  probe_loop-Total client leader zero probe acked h = Total-pure _ tt
  probe_loop-Total client leader (suc n) probe acked h =
      Total-bind (Total-invoke l client _ (4 * second) true (some leader) h)
        λ a same. probe_loop-Total a.0 leader n (probe + 1) _ (rw same h)

  read_if-Total :
      {c : ℕ} (b : Bool) (deadline : ℕ) (client : Client)
      → 0 < length client.nodes
      → Enough e.patience deadline c
      → Total e o c c Any (read_if e b deadline client)
  read_if-Total true deadline client h p = read_loop-Total l e.patience deadline client h p
  read_if-Total false deadline client h p = Total-pure _ tt

  probe_partition-Total :
      {c : ℕ} (nodes : List Node) (leader : Node)
      → 0 < length nodes
      → HasMajority nodes
      → 90 * second + pause ≤ e.patience * pause
      → Total e o c c Any (probe_partition e nodes leader)
  unfolding probe_partition new_client
  probe_partition-Total {c} nodes leader h many p = Total-bind (Total-isolate l nodes leader) λ x _.
      Total-bind (Total-rest l _) λ u _.
        Total-bind (probe_loop-Total (new_client (pos 300) nodes) leader 4 0 0 h) λ acked _.
          Total-clock λ now later.
            Total-bind
              (write_loop-Total l e.patience (now + 30 * second)
                (new_client (pos 301) (majority nodes leader)) 0 (many leader)
                (Enough-start e.patience (30 * second) now (omega (arith, p))))
              λ a some_.
                Total-bind
                  (read_if-Total a.1 (now + 30 * second + 10 * second) a.0 some_
                    (record { some_left = omega (arith, p); in_time = omega (arith, p) }))
                  λ read_ok _. Total-bind (Total-heal_all l nodes) λ v _.
                    Total-bind (Total-rest l _) λ w _.
                      Total-bind (Total-check _ _ _)
                        λ y _. Total-weaken (omega arith) later (Total-check {c = now} _ _ _)

  probe_known-Total :
      {c : ℕ} (nodes : List Node) (x : Option Node)
      → 0 < length nodes
      → HasMajority nodes
      → 90 * second + pause ≤ e.patience * pause
      → Total e o c c Any (probe_known e nodes x)
  probe_known-Total nodes none h many p = Total-check _ _ _
  probe_known-Total nodes (some leader) h many p = probe_partition-Total nodes leader h many p

  nodes-Total : {c : ℕ} → Total e o c c (λ a. a ≡ o.nodes) (asks (λ r. r.options.nodes))
  unfolding asks
  nodes-Total = record { at = λ s (same, h). (ap (λ x. x.nodes) same, (same, h)) }

  pub phase_minority_refuses_writes-Total :
      {c : ℕ}
      → 0 < length o.nodes
      → HasMajority o.nodes
      → 90 * second + pause ≤ e.patience * pause
      → Total e o c c Any (phase_minority_refuses_writes e)
  unfolding phase_minority_refuses_writes
  phase_minority_refuses_writes-Total h many p = Total-bind nodes-Total λ nodes same.
      Total-bind (Total-leader_id l nodes)
        λ id _. probe_known-Total nodes (node_by_id nodes id) (rw same h) (rw same many) p

  pub phase_convergence-Total :
      {c : ℕ} → 90 * second + pause ≤ e.patience * pause → Total e o c c Any (phase_convergence e)
  unfolding phase_convergence
  phase_convergence-Total p = Total-bind (Total-asks _) λ nodes _.
      Total-bind (Total-heal_all l nodes) λ u _. Total-clock λ now later.
        Total-weaken (omega arith) later (
          converge_loop-Total l {c = now} e.patience (now + 90 * second) nodes ""
            (Enough-start e.patience (90 * second) now p))
