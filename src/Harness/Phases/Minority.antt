-- ===== src/Harness/Phases/Minority.antt =====
-- internal/harness/run.go: phaseMinorityRefusesWrites.
use quorum_kv.Prelude.{
  String, Bool, true, false, ◌&&◌, not, Option, none, some, List, [], ◌∷◌, ◌==◌, if◌then◌else◌, ℕ,
  zero, suc, ◌+◌, ◌*◌, ltb, nat_eq,
}
use quorum_kv.Prelude.Int.{pos}
use quorum_kv.History.{outcome_ok}
use quorum_kv.Harness.Nodes.{Node}
use quorum_kv.Harness.Invoke.{Client}
use quorum_kv.Harness.Runner.{
  Env, Run, pure, stuck, outside, asks, ◌>>=◌, ◌>>◌, wait, check, new_client, request, invoke_op,
  ms, second,
}
use Prim.Native.String.{◌++◌}
use quorum_kv.Fmt.{decimal, text_of_bool}
use quorum_kv.Harness.Faults.{isolate, heal_all, leader_id, node_by_id}
use quorum_kv.Strings.{has_prefix}
use quorum_kv.Harness.Phases.Keys.{probe_key, live_key}

-- the nodes but the leader
unfoldable pub majority : List Node → Node → List Node
majority [] leader = []
majority (n ∷ ns) leader =
    let rest = majority ns leader in if not (n.id == leader.id) then n ∷ rest else rest

module _ {W : Type 0} (e : Env W) where
  -- the probes that are left, and the number of this one: how many were acknowledged
  unfoldable pub probe_loop : Client → Node → ℕ → ℕ → ℕ → Run W ℕ
  unfolding invoke_op request decimal
  probe_loop c leader zero probe acked = pure acked
  probe_loop c leader (suc n) probe acked = do
    (c', op) ←
        invoke_op e c (request (pos 300) "put" probe_key ("must-not-ack-" ++ decimal probe) none)
          (4 * second) true (some leader)
    probe_loop c' leader n (probe + 1) (if op.outcome == outcome_ok then acked + 1 else acked)

  -- writes until one is acknowledged or the time is over
  unfoldable pub write_loop : ℕ → ℕ → Client → ℕ → Run W (Client × Bool)
  unfolding invoke_op request decimal
  write_loop zero deadline c i = stuck
  write_loop (suc n) deadline c i = do
    now ← outside (λ w. (e.clock w, w))
    if not (ltb now deadline) then pure (c, false) else do
      (c', mw) ←
          invoke_op e c (request (pos 301) "put" live_key ("served-" ++ decimal i) none)
            (6 * second) false none
      if mw.outcome == outcome_ok
          then pure (c', true)
          else do wait (e.sleep (500 * ms)); write_loop n deadline c' (i + 1)

  -- reads until one finds such a value or the time is over
  unfoldable pub read_loop : ℕ → ℕ → Client → Run W Bool
  unfolding invoke_op request has_prefix
  read_loop zero deadline c = stuck
  read_loop (suc n) deadline c = do
    now ← outside (λ w. (e.clock w, w))
    if not (ltb now deadline) then pure false else do
      (c', mg) ← invoke_op e c (request (pos 301) "get" live_key "" none) (6 * second) false none
      if mg.outcome == outcome_ok && has_prefix mg.ret_val "served-"
          then pure true
          else do wait (e.sleep (500 * ms)); read_loop n deadline c'

  -- a read only after an acknowledged write
  abbrev pub read_if : Bool → ℕ → Client → Run W Bool
  read_if true deadline c = read_loop e.patience deadline c
  read_if false deadline c = pure false

  abbrev pub acked_text : Node → ℕ → String
  acked_text leader acked =
      "isolated leader "
      ++ (leader.id ++ (" acked " ++ (decimal acked ++ "/4 direct writes (must be 0)")))

  abbrev pub served_text : Bool → Bool → String
  served_text write_acked read_ok =
      "majority side during leader partition: write acked="
      ++ (text_of_bool write_acked ++ (", read ok=" ++ text_of_bool read_ok))

  unfoldable pub probe_partition : List Node → Node → Run W (Unit {0})
  unfolding isolate heal_all probe_loop write_loop read_loop majority new_client check text_of_bool
  probe_partition nodes leader = do
    _ ← isolate e nodes leader
    wait (e.sleep (2 * second))
    acked ← probe_loop (new_client (pos 300) nodes) leader 4 0 0
    now ← outside (λ w. (e.clock w, w))
    let deadline = now + 30 * second
    (mc, write_acked) ←
        write_loop e.patience deadline (new_client (pos 301) (majority nodes leader)) 0
    read_ok ← read_if write_acked (deadline + 10 * second) mc
    heal_all e nodes
    wait (e.sleep (3 * second))
    check "minority-refuses-writes" (nat_eq acked 0) (acked_text leader acked)
    check "majority-keeps-serving" (write_acked && read_ok) (served_text write_acked read_ok)

  abbrev pub probe_known : List Node → Option Node → Run W (Unit {0})
  probe_known nodes none = check "minority-refuses-writes" false "no leader found to partition"
  probe_known nodes (some leader) = probe_partition nodes leader

  unfoldable pub phase_minority_refuses_writes : Run W (Unit {0})
  unfolding probe_partition leader_id node_by_id
  phase_minority_refuses_writes = do
    nodes ← asks (λ r. r.options.nodes)
    id ← leader_id e nodes
    probe_known nodes (node_by_id nodes id)
