-- ===== src/Harness/Run/Chaotic.antt =====
-- The chaos phase comes to an end.
use quorum_kv.Prelude.{
  nat_eq, ◌^◌, ◌≡◌, refl, Bool, true, false, Option, none, some, List, [], ◌∷◌, arith, length, ap,
  ℕ, zero, suc, ◌+◌, ◌*◌, ◌<◌, ◌≤◌,
}
use quorum_kv.Harness.Nodes.{Node}
use quorum_kv.Harness.Invoke.{Client, is_some}
use quorum_kv.Harness.Runner.{Env, Options, pure, or_stuck, ms}
use quorum_kv.Harness.Runner.Rules.{Any}
use quorum_kv.Harness.Runner.Total.{
  Lawful, Total, Total-pure, Total-outside, Total-asks, Total-or_stuck, Total-if, Total-either,
  Total-weaken, Total-bind,
}
use quorum_kv.Prelude.{String}
use quorum_kv.Prelude.Int.{pos}
use quorum_kv.Harness.Runner.{new_client, second}
use quorum_kv.Harness.Workload.{get_elem?, random_op, next_op}
use quorum_kv.Harness.Runner.Steady.{
  Total-options, Total-check, Total-clock, Total-sleep, Total-idle, Total-intn, Total-invoke,
  Total-kill, Total-start, Total-isolate, Total-heal_all, Total-leader_id,
}
use quorum_kv.Harness.Run.Timed.{pause, Enough, Enough-start, Enough-next}
use quorum_kv.Harness.Run.Brief.{get_elem?-below}
use quorum_kv.Harness.Phases.Keys.{workload_keys, range}
use quorum_kv.Harness.Phases.Contention.{set}
use quorum_kv.Harness.Phases.Chaos.{
  chaos_clients, client_turn, turn_at, turns, sleeping, known_or_drawn, choose_target, kill_round,
  partition_round, fault_round, chaos_loop, phase_chaos,
}
use quorum_kv.Prelude.{All, map, ◌%◌}

-- Every client has a node.
abbrev Served : List Client → Type 0
Served = All (λ c. 0 < length c.nodes)

Served-set :
    (cs : List Client) (i : ℕ) (c : Client) → Served cs → 0 < length c.nodes → Served (set cs i c)
unfolding set
Served-set [] i c h p = tt
Served-set (x ∷ cs) zero c (q, h) p = (p, h)
Served-set (x ∷ cs) (suc i) c (q, h) p = (q, Served-set cs i c h p)

count_of : Option Client → ℕ
count_of none = 0
count_of (some c) = length c.nodes

Served-get_elem? :
    (cs : List Client) (i : ℕ) (c : Client)
    → Served cs
    → get_elem? cs i ≡ some c
    → 0 < length c.nodes
unfolding get_elem? count_of
Served-get_elem? [] i c h p = absurd cc
Served-get_elem? (x ∷ cs) zero c (q, h) p = let n = ap count_of p in omega (arith, q, n)
Served-get_elem? (x ∷ cs) (suc i) c (q, h) p = Served-get_elem? cs i c h p

clients-Served :
    (nodes : List Node) (is : List ℕ)
    → 0 < length nodes
    → Served (map (λ i. new_client (pos i) nodes) is)
unfolding new_client
clients-Served nodes [] h = tt
clients-Served nodes (i ∷ is) h = (h, clients-Served nodes is h)

chaos_clients-Served :
    (nodes : List Node) (n : ℕ) → 0 < length nodes → Served (chaos_clients nodes n)
unfolding chaos_clients
chaos_clients-Served nodes n h = clients-Served nodes (range 1 n) h

random_op-nodes :
    (c : Client) (key : String) (noise r absent : ℕ)
    → (random_op c key noise r absent).0.nodes ≡ c.nodes
unfolding random_op
random_op-nodes c key noise r absent = ground arith

workload_keys-some : (n : ℕ) → 0 < n → 0 < length (workload_keys n)
unfolding workload_keys range
workload_keys-some zero h = absurd (omega arith)
workload_keys-some (suc n) h = omega arith

module _ {W : Type 0} {e : Env W} (l : Lawful e) {o : Options} where
  next_op-Total :
      {c : ℕ} (client : Client) (keys : List String)
      → 0 < length keys
      → Total e o c c (λ a. a.0.nodes ≡ client.nodes) (next_op e client keys)
  unfolding next_op
  next_op-Total client keys h = Total-bind (Total-intn l (length keys) h) λ i below.
      Total-bind (Total-or_stuck _ (get_elem?-below keys i below)) λ key _.
        Total-bind (Total-outside {V = Any} _ (λ w. tt) (l.intn_later (2 ^ 24))) λ noise _.
          Total-bind (Total-outside {V = Any} _ (λ w. tt) l.float64_later) λ r _.
            Total-bind
              (Total-either _ (Total-outside {V = Any} _ (λ w. tt) l.float64_later)
                (Total-pure _ tt))
              λ absent _. Total-pure _ (random_op-nodes client key noise r absent)

  client_turn-Total :
      {c : ℕ} (keys : List String) (client : Client)
      → 0 < length keys
      → 0 < length client.nodes
      → Total e o c c (λ a. 0 < length a.nodes) (client_turn e keys client)
  unfolding client_turn
  client_turn-Total keys client k h = Total-bind (next_op-Total client keys k) λ a same.
      Total-bind (Total-invoke l a.0 a.1 (8 * second) false none (rw same h)) λ b same'.
        Total-bind (Total-intn l 40 (omega arith))
          λ d _. Total-bind (Total-idle l _) λ u _. Total-pure _ (rw (same', same) h)

  turn_at-Total :
      {c : ℕ} (keys : List String) (i : ℕ) (cs : List Client) (x : Option Client)
      → 0 < length keys
      → Served cs
      → get_elem? cs i ≡ x
      → Total e o c c Served (turn_at e keys i cs x)
  turn_at-Total keys i cs none k h p = Total-pure _ h
  turn_at-Total keys i cs (some client) k h p =
      Total-bind (client_turn-Total keys client k (Served-get_elem? cs i client h p))
        λ c' some_. Total-pure _ (Served-set cs i c' h some_)

  turns-Total :
      {c : ℕ} (keys : List String) (is : List ℕ) (cs : List Client)
      → 0 < length keys
      → Served cs
      → Total e o c c Served (turns e keys is cs)
  unfolding turns
  turns-Total keys [] cs k h = Total-pure _ h
  turns-Total keys (i ∷ is) cs k h =
      Total-bind (turn_at-Total keys i cs (get_elem? cs i) k h refl)
        λ cs' h'. turns-Total keys is cs' k h'

  sleeping-Total :
      {c : ℕ} (keys : List String) (d : ℕ) (cs : List Client)
      → 0 < length keys
      → Served cs
      → Total e o c (c + d) Served (sleeping e keys d cs)
  unfolding sleeping
  sleeping-Total keys d cs k h = Total-bind (Total-sleep l d) λ u _.
      Total-bind (Total-outside {V = Any} _ (λ w. tt) l.busy_later)
        λ is _. turns-Total keys is cs k h

  resting-Total :
      {c : ℕ} (keys : List String) (d : ℕ) (cs : List Client)
      → 0 < length keys
      → Served cs
      → Total e o c c Served (sleeping e keys d cs)
  resting-Total {c} keys d cs k h =
      Total-weaken {b = c} (omega arith) (omega arith) (sleeping-Total keys d cs k h)

  node_at-Total : {c : ℕ} (x : Option Node) → is_some x ≡ true → Total e o c c Any (or_stuck x)
  unfolding pure
  node_at-Total none h = absurd cc
  node_at-Total (some n) h = Total-pure n tt

  known_or_drawn-Total :
      {c : ℕ} (nodes : List Node) (x : Option Node)
      → 0 < length nodes
      → Total e o c c Any (known_or_drawn e nodes x)
  known_or_drawn-Total nodes (some n) h = Total-pure _ tt
  known_or_drawn-Total nodes none h =
      Total-bind (Total-intn l (length nodes) h)
        λ i below. node_at-Total (get_elem? nodes i) (get_elem?-below nodes i below)

  choose_target-Total :
      {c : ℕ} (nodes : List Node) (mode : ℕ)
      → 0 < length nodes
      → Total e o c c Any (choose_target e nodes mode)
  unfolding choose_target
  choose_target-Total nodes mode h =
      Total-bind (Total-either _ (Total-leader_id l nodes) (Total-pure _ tt))
        λ id _. known_or_drawn-Total nodes _ h

  fault_round-Total :
      {c : ℕ} (nodes : List Node) (keys : List String) (n : Node) (cs : List Client) (b : Bool)
      → 0 < length keys
      → Served cs
      → Total e o c c Served (fault_round e nodes keys n cs b)
  unfolding kill_round partition_round
  fault_round-Total nodes keys n cs true k h = Total-bind (Total-kill l n) λ x _.
      Total-bind (Total-intn l 5000 (omega arith)) λ d _.
        Total-bind (resting-Total keys ((3000 + d) * ms) cs k h)
          λ cs' h'. Total-bind (Total-start l n) λ y _. Total-pure _ h'
  fault_round-Total nodes keys n cs false k h = Total-bind (Total-isolate l nodes n) λ x _.
      Total-bind (Total-intn l 8000 (omega arith)) λ d _.
        Total-bind (resting-Total keys ((5000 + d) * ms) cs k h)
          λ cs' h'. Total-bind (Total-heal_all l nodes) λ y _. Total-pure _ h'

  -- a round, which takes longer than a pause
  chaos_loop-Total :
      {c : ℕ} (n end_ : ℕ) (nodes : List Node) (keys : List String) (cs : List Client)
      → 0 < length nodes
      → 0 < length keys
      → Served cs
      → Enough n end_ c
      → Total e o c c Served (chaos_loop e n end_ nodes keys cs)
  unfolding chaos_loop
  chaos_loop-Total zero end_ nodes keys cs s k h p = absurd (omega (arith, p.some_left))
  chaos_loop-Total (suc n) end_ nodes keys cs s k h p = Total-clock λ now later.
      Total-if _ (λ over. Total-weaken (omega arith) later (Total-pure _ h))
        λ early. Total-bind (Total-intn l 3000 (omega arith)) λ d _.
          Total-bind (sleeping-Total {c = now} keys ((2000 + d) * ms) cs k h) λ cs1 h1.
            Total-bind (Total-intn l 4 (omega arith)) λ mode _.
              Total-bind (choose_target-Total nodes mode s) λ target _.
                Total-bind (fault_round-Total nodes keys target cs1 (nat_eq (mode % 2) 0) k h1)
                  λ cs2 h2. Total-bind (Total-intn l 2000 (omega arith)) λ d' _.
                    Total-bind (resting-Total keys ((1000 + d') * ms) cs2 k h2) λ cs3 h3.
                      Total-weaken (omega arith) (omega (arith, later)) (
                        chaos_loop-Total {c = now + (2000 + d) * ms} n end_ nodes keys cs3 s k h3 (
                          Enough-next n end_ _ now (now + (2000 + d) * ms) p later early
                            (omega arith)))

  pub phase_chaos-Total :
      {c : ℕ}
      → 0 < length o.nodes
      → 0 < o.num_keys
      → o.duration + pause ≤ e.patience * pause
      → Total e o c c Any (phase_chaos e)
  unfolding phase_chaos
  phase_chaos-Total h k p = Total-bind Total-options λ o' same.
      let some_ : 0 < length (workload_keys o'.num_keys) =
        workload_keys-some o'.num_keys (rw same k) in
      Total-clock λ now later. Total-weaken (omega arith) later (
        Total-bind
          (chaos_loop-Total {c = now} e.patience (now + o'.duration) o'.nodes
            (workload_keys o'.num_keys) (chaos_clients o'.nodes o'.num_clients) (rw same h) some_
            (chaos_clients-Served o'.nodes o'.num_clients (rw same h))
            (Enough-start e.patience o'.duration now (rw same p)))
          λ cs served. Total-bind (Total-outside {V = Any} _ (λ w. tt) l.busy_later) λ is _.
            Total-bind (turns-Total (workload_keys o'.num_keys) is cs some_ served) λ cs' _.
              Total-bind (Total-heal_all l o'.nodes)
                λ u _. Total-bind (Total-asks _) λ n _. Total-check _ _ _)
