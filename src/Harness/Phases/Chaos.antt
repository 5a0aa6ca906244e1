-- ===== src/Harness/Phases/Chaos.antt =====
-- internal/harness/run.go: phaseChaos.
use quorum_kv.Prelude.{
  String, Bool, true, false, not, Option, none, some, List, [], ◌∷◌, map, if◌then◌else◌, length, ℕ,
  zero, suc, ◌+◌, ◌%◌, ◌*◌, ltb, leb, nat_eq,
}
use quorum_kv.Prelude.Int.{pos}
use quorum_kv.Harness.Nodes.{Node}
use quorum_kv.Harness.Invoke.{Client}
use quorum_kv.Harness.Runner.{
  Env, Run, pure, stuck, or_stuck, outside, asks, ◌>>=◌, ◌>>◌, wait, check, new_client, invoke_op,
  ms, second,
}
use Prim.Native.String.{◌++◌}
use quorum_kv.Fmt.{decimal}
use quorum_kv.Harness.Workload.{intn, get_elem?}
use quorum_kv.Harness.Faults.{kill, start, isolate, heal_all, leader_id, node_by_id}
use quorum_kv.Harness.Workload.{next_op}
use quorum_kv.Harness.Phases.Keys.{workload_keys, range}
use quorum_kv.Harness.Phases.Contention.{set}

-- the clients of the goroutines, numbered from 1
unfoldable pub chaos_clients : List Node → ℕ → List Client
unfolding range new_client
chaos_clients nodes n = map (λ i. new_client (pos i) nodes) (range 1 n)

module _ {W : Type 0} (e : Env W) where
  -- one round of a goroutine
  unfoldable pub client_turn : List String → Client → Run W Client
  unfolding next_op invoke_op intn
  client_turn keys c = do
    (c', op) ← next_op e c keys
    (c'', _) ← invoke_op e c' op (8 * second) false none
    d ← intn e 40
    wait (e.idle (d * ms))
    pure c''

  abbrev pub turn_at : List String → ℕ → List Client → Option Client → Run W (List Client)
  turn_at keys i clients none = pure clients
  turn_at keys i clients (some c) = do c' ← client_turn keys c; pure (set clients i c')

  -- The goroutines that end a round, by their places; a place that no client has is skipped.
  unfoldable pub turns : List String → List ℕ → List Client → Run W (List Client)
  unfolding client_turn get_elem? set
  turns keys [] clients = pure clients
  turns keys (i ∷ is) clients = do
    clients' ← turn_at keys i clients (get_elem? clients i)
    turns keys is clients'

  -- The injector sleeps, and clients end their rounds meanwhile.
  unfoldable pub sleeping : List String → ℕ → List Client → Run W (List Client)
  unfolding turns
  sleeping keys d clients = do wait (e.sleep d); is ← outside e.busy; turns keys is clients

  -- a node, or else one that is drawn
  abbrev pub known_or_drawn : List Node → Option Node → Run W Node
  known_or_drawn nodes (some n) = pure n
  known_or_drawn nodes none = do i ← intn e (length nodes); or_stuck (get_elem? nodes i)

  -- the target of the round's fault
  unfoldable pub choose_target : List Node → ℕ → Run W Node
  unfolding leader_id node_by_id intn get_elem?
  choose_target nodes mode = do
    id ← if leb mode 1 then leader_id e nodes else pure ""
    known_or_drawn nodes (if leb mode 1 then node_by_id nodes id else none)

  unfoldable pub kill_round : List String → Node → List Client → Run W (List Client)
  unfolding kill start sleeping intn
  kill_round keys n clients = do
    _ ← kill e n
    d ← intn e 5000
    clients' ← sleeping keys ((3000 + d) * ms) clients
    _ ← start e n
    pure clients'

  unfoldable pub partition_round :
      List Node → List String → Node → List Client → Run W (List Client)
  unfolding isolate heal_all sleeping intn
  partition_round nodes keys n clients = do
    _ ← isolate e nodes n
    d ← intn e 8000
    clients' ← sleeping keys ((5000 + d) * ms) clients
    heal_all e nodes
    pure clients'

  -- the fault of a round: a kill or a partition
  abbrev pub fault_round : List Node → List String → Node → List Client → Bool → Run W (List Client)
  fault_round nodes keys n clients true = kill_round keys n clients
  fault_round nodes keys n clients false = partition_round nodes keys n clients

  -- the injector's loop
  unfoldable pub chaos_loop : ℕ → ℕ → List Node → List String → List Client → Run W (List Client)
  unfolding kill_round partition_round choose_target sleeping intn
  chaos_loop zero end_ nodes keys clients = stuck
  chaos_loop (suc n) end_ nodes keys clients = do
    now ← outside (λ w. (e.clock w, w))
    if not (ltb now end_) then pure clients else do
      d ← intn e 3000
      clients1 ← sleeping keys ((2000 + d) * ms) clients
      mode ← intn e 4
      target ← choose_target nodes mode
      clients2 ← fault_round nodes keys target clients1 (nat_eq (mode % 2) 0)
      d' ← intn e 2000
      clients3 ← sleeping keys ((1000 + d') * ms) clients2
      chaos_loop n end_ nodes keys clients3

  unfoldable pub phase_chaos : Run W (Unit {0})
  unfolding chaos_loop turns heal_all check chaos_clients workload_keys decimal
  phase_chaos = do
    o ← asks (λ r. r.options)
    let keys = workload_keys o.num_keys
    now ← outside (λ w. (e.clock w, w))
    clients ←
        chaos_loop e.patience (now + o.duration) o.nodes keys (chaos_clients o.nodes o.num_clients)
    is ← outside e.busy
    _ ← turns keys is clients
    heal_all e o.nodes
    faults ← asks (λ r. length r.events)
    check "chaos-completed" true
        (decimal faults ++ (" faults injected over " ++ e.duration_text o.duration))
