-- ===== src/Harness/Invoke/Attempts.antt =====
-- The attempts of one call of Invoke.
use quorum_kv.Prelude.{
  String, ◌≡◌, refl, Bool, true, false, ◌&&◌, ◌||◌, not, Option, none, some, List, [], ◌∷◌, ◌==◌,
  eq_iff, arith, if◌then◌else◌, inl, inr, All, length, Bool-cases, ℕ, zero, suc, ◌+◌, ◌<◌,
}
use Prim.Native.Nat.{◌%◌}
use mathlib.Core.List.{◌++◌}
use quorum_kv.History.{Op, outcome_ok, outcome_failed, outcome_unknown}
use quorum_kv.Harness.Nodes.{Node}
use quorum_kv.Harness.Invoke.{
  Client, Round, Turn, finished, again, turn, add, note_seen, nth, node_for, invoke_from, invoke,
}

-- A definite failure before the deadline, after which the next node is tried.
abbrev pub is_retried : Round → Bool
is_retried r = r.result.class == "fail" && not r.late

-- A success, an unknown outcome, or a definite failure after the deadline.
abbrev pub is_last : Round → Bool
is_last r =
    r.result.class == "ok" || r.result.class == "unknown" || r.result.class == "fail" && r.late

abbrev pub outcome_of : Round → String
outcome_of r =
    if r.result.class == "ok"
    then outcome_ok
    else if r.result.class == "unknown"
    then outcome_unknown
    else outcome_failed

abbrev pub IsRetried : Round → Type 0
IsRetried r = is_retried r ≡ true

-- How a call ends that was finished by the round `r` at some node: one record is added to the history,
-- it is the one returned, and it is of this operation, this round's times and its class.
pub record Ended (c : Client) (op : Op) (node : Node) (r : Round) (x : Client × Op) : Type 0 where
  pub recorded : x.0.recorded ≡ c.recorded ++ x.1 ∷ []
  pub outcome : x.1.outcome ≡ outcome_of r
  pub start_ns : x.1.start_ns ≡ r.start_ns
  pub end_ns : x.1.end_ns ≡ r.end_ns
  pub node_id : x.1.node ≡ node.id
  pub operation :
      (x.1.op ≡ op.op) × (x.1.key ≡ op.key) × (x.1.value ≡ op.value) × (x.1.expect ≡ op.expect)

pub data Finishes (c : Client) (op : Op) (node : Node) (r : Round) : Turn → Type 0 where
  finishes :
      (c' : Client) (done : Op)
      → Ended c op node r (c', done)
      → Finishes c op node r (finished c' done)

ends :
    (c c' : Client) (op : Op) (node : Node) (r : Round) (o : String) (b p : Bool) (v : String)
    → o ≡ outcome_of r
    → c'.recorded ≡ c.recorded
    → (let done : Op = record op {
      node = node.id;
      start_ns = r.start_ns;
      end_ns = r.end_ns;
      outcome = o;
      ok = b;
      present = p;
      ret_val = v;
    } in
        Finishes c op node r (finished (add c' done) done))
unfolding add
ends c c' op node r o b p v h e = finishes _ _ (record {
  recorded = rw e;
  outcome = h;
  start_ns = refl;
  end_ns = refl;
  node_id = refl;
  operation = (refl, refl, refl, refl);
})

seen-recorded : (c : Client) (o : Op) → (note_seen c o).recorded ≡ c.recorded
unfolding note_seen
seen-recorded c o = ground arith

pub turn-Finishes :
    (c : Client) (op : Op) (pin : Option Node) (node : Node) (r : Round)
    → is_last r ≡ true
    → Finishes c op node r (turn c op pin node r)
unfolding turn
turn-Finishes c op pin node r h = elim (Bool-cases (r.result.class == "ok")) [
  | inl e ↦
      (let done : Op = record op {
        node = node.id;
        start_ns = r.start_ns;
        end_ns = r.end_ns;
        outcome = outcome_ok;
        ok = r.result.ok;
        present = r.result.present;
        ret_val = r.result.val;
      } in
        rw e (
          ends c (note_seen c done) op node r outcome_ok r.result.ok r.result.present r.result.val
            (rw e) (seen-recorded c done)))
  | inr e ↦ elim (Bool-cases (r.result.class == "unknown")) [
    | inl e' ↦
        rw (e, e')
          (ends c c op node r outcome_unknown op.ok op.present op.ret_val (rw (e, e')) refl)
    | inr e' ↦
        (let f : r.result.class == "fail" ≡ true = ground arith in
          let l : r.late ≡ true = ground arith in
          simp (e, e', f, l)
            (ends c c op node r outcome_failed op.ok op.present op.ret_val (rw (e, e')) refl))
  ]
]

pub turn-again :
    (c : Client) (op : Op) (node : Node) (r : Round)
    → IsRetried r
    → turn c op none node r
      ≡ again (record op { node = node.id; start_ns = r.start_ns; end_ns = r.end_ns })
unfolding turn
turn-again c op node r h =
    let f : (r.result.class == "fail") ≡ true = ground arith in
    let l : r.late ≡ false = ground arith in
    let g : r.result.class ≡ "fail" = ground (arith, eq_iff r.result.class "fail") in simp (g, l)

nth_below : (ns : List Node) (i : ℕ) → i < length ns → (n : Node) × (nth ns i ≡ some n)
unfolding nth
nth_below [] i h = absurd (omega arith)
nth_below (n ∷ ns) zero h = (n, refl)
nth_below (n ∷ ns) (suc i) h = nth_below ns i (omega arith)

pub node_for-some :
    (c : Client) (pin : Option Node) (start attempt : ℕ)
    → 0 < length c.nodes
    → (n : Node) × (node_for c pin start attempt ≡ some n)
unfolding node_for
node_for-some c (some p) start attempt h = (p, refl)
node_for-some c none start attempt h =
    nth_below c.nodes ((start + attempt) % length c.nodes) (omega arith)

pub data Returns (c : Client) (op : Op) (node : Node) (r : Round)
    : Option (Client × Op) → Type 0 where
  returns : (x : Client × Op) → Ended c op node r x → Returns c op node r (some x)

abbrev pub turned : (Op → Option (Client × Op)) → Turn → Option (Client × Op)
turned rest (finished c done) = some (c, done)
turned rest (again op) = rest op

Returns-turned :
    (c : Client) (op : Op) (node : Node) (r : Round) (rest : Op → Option (Client × Op)) (t : Turn)
    → Finishes c op node r t
    → Returns c op node r (turned rest t)
Returns-turned c op node r rest _ (finishes c' done e) = returns (c', done) e

pub invoke_from-cons :
    (c : Client) (op : Op) (pin : Option Node) (start attempt : ℕ) (r : Round) (rs : List Round)
    (node : Node)
    → node_for c pin start attempt ≡ some node
    → invoke_from c op pin start attempt (r ∷ rs)
      ≡ turned (λ o. invoke_from c o pin start (attempt + 1) rs) (turn c op pin node r)
unfolding invoke_from
invoke_from-cons c op pin start attempt r rs node h =
    rw (invoke_from, h) (elim (turn c op pin node r) [ finished c' done ↦ refl | again o ↦ refl ])

-- Returns on an operation that differs in what an attempt overwrites.
Returns-again :
    (c : Client) (op : Op) (node node' : Node) (r r' : Round) (x : Option (Client × Op))
    → Returns c (record op { node = node'.id; start_ns = r'.start_ns; end_ns = r'.end_ns }) node r x
    → Returns c op node r x
Returns-again c op node node' r r' _ (returns x e) = returns x (record {
  recorded = e.recorded;
  outcome = e.outcome;
  start_ns = e.start_ns;
  end_ns = e.end_ns;
  node_id = e.node_id;
  operation = e.operation;
})

invoke_from-Returns :
    (c : Client) (op : Op) (start attempt : ℕ) (before : List Round) (r : Round)
    (after : List Round) (node : Node) (i : ℕ)
    → 0 < length c.nodes
    → All IsRetried before
    → is_last r ≡ true
    → i ≡ attempt + length before
    → node_for c none start i ≡ some node
    → Returns c op node r (invoke_from c op none start attempt (before ++ r ∷ after))
invoke_from-Returns c op start attempt [] r after node i pos_ fails last e at =
    let first : attempt ≡ i = omega (arith, e) in
    let here : node_for c none start attempt ≡ some node = rw (first, at) in
    rw (invoke_from-cons c op none start attempt r after node here)
      (Returns-turned c op node r _ _ (turn-Finishes c op none node r last))
invoke_from-Returns c op start attempt (b ∷ bs) r after node i pos_ fails last e at =
    let (n, here) = node_for-some c none start attempt pos_ in
    rw
      (
        invoke_from-cons c op none start attempt b (bs ++ r ∷ after) n here,
        turn-again c op n b fails.0,
      )
      (Returns-again c op node n r b _ (
        invoke_from-Returns c (record op { node = n.id; start_ns = b.start_ns; end_ns = b.end_ns })
          start (attempt + 1) bs r after node i pos_ fails.1 last (omega (arith, e)) at))

-- A client without a pinned node, whose attempts meet definite failures before the deadline and then a
-- success, an unknown outcome or a definite failure after the deadline: Invoke returns, and has asked
-- the nodes in turn, each attempt the next one, up to the node of that last attempt. It adds one record
-- to the history, which it returns: the operation with the last attempt's node, times and outcome.
pub invoke-Returns :
    (c : Client) (op : Op) (start : ℕ) (before : List Round) (r : Round) (after : List Round)
    (node : Node)
    → 0 < length c.nodes
    → All IsRetried before
    → is_last r ≡ true
    → nth c.nodes ((start + length before) % length c.nodes) ≡ some node
    → Returns c op node r (invoke c op none start (before ++ r ∷ after))
unfolding invoke node_for
invoke-Returns c op start before r after node pos_ fails last at =
    invoke_from-Returns c op start 0 before r after node (length before) pos_ fails last
      (omega arith) at
