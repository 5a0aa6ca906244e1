-- ===== src/Harness/Phases/Durability.antt =====
-- internal/harness/run.go: phaseLeaderKillDurability.
use quorum_kv.Prelude.{
  String, true, false, ◌||◌, not, Option, none, some, List, [], ◌∷◌, ◌==◌, if◌then◌else◌, ℕ, zero,
  suc, ◌+◌, ◌*◌, ltb,
}
use quorum_kv.Prelude.Int.{ℤ, pos}
use quorum_kv.History.{Op, outcome_ok}
use quorum_kv.Harness.Nodes.{Node}
use quorum_kv.Harness.Invoke.{Client}
use quorum_kv.Harness.Runner.{
  Env, Run, pure, stuck, outside, asks, ◌>>=◌, ◌>>◌, wait, check, new_client, request, invoke_op,
  ms, second,
}
use Prim.Native.String.{◌++◌}
use quorum_kv.Fmt.{decimal, text_of_bool}
use quorum_kv.Harness.Faults.{exec, kill, heal_all, leader_id, node_by_id}
use quorum_kv.Harness.Phases.Keys.{durable_key}
use quorum_kv.Harness.Phases.Smoke.{Tally, fail_with}

unfoldable pub precious : ℕ → String
unfolding decimal
precious i = "precious-" ++ decimal i

module _ {W : Type 0} (e : Env W) where
  -- the kill of a node, if there is one, and the nodes for which a start is deferred
  abbrev pub kill_known : List Node → Option Node → Run W (List Node)
  kill_known deferred none = pure deferred
  kill_known deferred (some n) = do _ ← kill e n; pure (n ∷ deferred)

  -- the kill of the leader, if it is known
  unfoldable pub kill_leader : List Node → List Node → Run W (List Node)
  unfolding kill leader_id node_by_id
  kill_leader nodes deferred = do id ← leader_id e nodes; kill_known deferred (node_by_id nodes id)

  -- the loop that reads back; its last record, of the zero value if there was none
  unfoldable pub read_back : ℕ → ℕ → Client → ℤ → String → Op → Run W Op
  unfolding invoke_op request
  read_back zero deadline c id key got = stuck
  read_back (suc n) deadline c id key got = do
    now ← outside (λ w. (e.clock w, w))
    if not (ltb now deadline) then pure got else do
      (c', got') ← invoke_op e c (request id "get" key "" none) (5 * second) false none
      if got'.outcome == outcome_ok
          then pure got'
          else do wait (e.sleep (500 * ms)); read_back n deadline c' id key got'

  abbrev pub lost_write : ℕ → Op → String
  lost_write i got =
      "iter "
      ++ (decimal i
          ++ (": acked write lost (outcome="
              ++ (got.outcome
                  ++ (" present="
                      ++ (text_of_bool got.present
                          ++ (" val=" ++ (e.quote got.ret_val ++ "); ")))))))

  abbrev pub judged : ℕ → Op → Tally → Tally
  judged i got t =
      if not (got.outcome == outcome_ok) || not got.present || not (got.ret_val == precious i)
      then fail_with t (lost_write i got)
      else record t { detail = t.detail ++ ("iter " ++ (decimal i ++ ": survived leader kill; ")) }

  -- the iterations that are left, and the number of this one
  unfoldable pub durability_loop : List Node → ℕ → ℕ → Tally → List Node → Run W (Tally × List Node)
  unfolding kill_leader read_back heal_all new_client durable_key precious fail_with text_of_bool
  durability_loop nodes zero i t deferred = pure (t, deferred)
  durability_loop nodes (suc n) i t deferred = do
    let id = pos (200 + i)
    (c, w) ←
        invoke_op e (new_client id nodes) (request id "put" (durable_key i) (precious i) none)
          (20 * second) false none
    if not (w.outcome == outcome_ok)
        then durability_loop nodes n (i + 1)
            (fail_with t ("iter " ++ (decimal i ++ (": put not acked (" ++ (w.outcome ++ "); ")))))
            deferred
        else do
          deferred' ← kill_leader nodes deferred
          now ← outside (λ w'. (e.clock w', w'))
          got ←
              read_back e.patience (now + 45 * second) c id (durable_key i)
                (request (pos 0) "" "" "" none)
          heal_all e nodes
          wait (e.sleep (3 * second))
          durability_loop nodes n (i + 1) (judged i got t) deferred'

  -- the deferred calls, the last one first
  unfoldable pub start_deferred : List Node → Run W (Unit {0})
  unfolding exec
  start_deferred [] = pure tt
  start_deferred (n ∷ ns) = do _ ← exec e ("docker" ∷ "start" ∷ n.container ∷ []); start_deferred ns

  unfoldable pub phase_leader_kill_durability : Run W (Unit {0})
  unfolding durability_loop start_deferred check
  phase_leader_kill_durability = do
    o ← asks (λ r. r.options)
    (t, deferred) ← durability_loop o.nodes 3 0 (record { ok_all = true; detail = "" }) []
    check "acked-write-survives-leader-kill" t.ok_all t.detail
    start_deferred deferred
