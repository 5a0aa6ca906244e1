-- ===== src/Harness/Run/Recorded.antt =====
-- What a call of Invoke records, however it ends.
use quorum_kv.Prelude.{
  ◌∙◌, String, ◌≡◌, refl, Bool, true, false, ◌||◌, Option, none, some, List, [], ◌∷◌, ◌==◌, arith,
  if◌then◌else◌, ℕ, ◌+◌,
}
use quorum_kv.History.{Op, outcome_ok, outcome_failed, outcome_unknown}
use quorum_kv.Harness.Nodes.{Node}
use quorum_kv.Harness.Invoke.{Client}
use mathlib.Core.List.{◌++◌}
use quorum_kv.Harness.Invoke.{
  Client, Round, Turn, finished, again, turn, add, note_seen, node_for, invoke_from, invoke,
  is_some,
}

-- One of the three outcomes.
abbrev pub is_classified : String → Bool
is_classified o = o == outcome_ok || o == outcome_failed || o == outcome_unknown

-- A record of an operation, as a client ends it.
pub record Closes (c : Client) (op : Op) (c' : Client) (done : Op) : Type 0 where
  pub recorded : c'.recorded ≡ c.recorded ++ done ∷ []
  pub classified : is_classified done.outcome ≡ true
  pub same_op : done.op ≡ op.op
  pub same_key : done.key ≡ op.key
  pub same_nodes : c'.nodes ≡ c.nodes

pub data Outcomes (c : Client) (op : Op) : Option (Client × Op) → Type 0 where
  endless : Outcomes c op none
  closed : (c' : Client) (done : Op) → Closes c op c' done → Outcomes c op (some (c', done))

data Turns (c : Client) (op : Op) : Turn → Type 0 where
  closes : (c' : Client) (done : Op) → Closes c op c' done → Turns c op (finished c' done)
  repeats : (op' : Op) → op'.op ≡ op.op → op'.key ≡ op.key → Turns c op (again op')

note_seen-recorded : (c : Client) (o : Op) → (note_seen c o).recorded ≡ c.recorded
unfolding note_seen
note_seen-recorded c o = ground arith

note_seen-nodes : (c : Client) (o : Op) → (note_seen c o).nodes ≡ c.nodes
unfolding note_seen
note_seen-nodes c o = ground arith

Closes-add :
    (c c' : Client) (op done : Op)
    → c'.recorded ≡ c.recorded
    → is_classified done.outcome ≡ true
    → done.op ≡ op.op
    → done.key ≡ op.key
    → c'.nodes ≡ c.nodes
    → Closes c op (add c' done) done
unfolding add
Closes-add c c' op done e o p k n = record {
  recorded = rw e;
  classified = o;
  same_op = p;
  same_key = k;
  same_nodes = n;
}

Turns-if :
    (c : Client) (op : Op) (b : Bool) (t u : Turn)
    → Turns c op t
    → Turns c op u
    → Turns c op (if b then t else u)
Turns-if c op true t u ht hu = ht
Turns-if c op false t u ht hu = hu

turn-Turns :
    (c : Client) (op : Op) (pin : Option Node) (node : Node) (r : Round)
    → Turns c op (turn c op pin node r)
unfolding turn
turn-Turns c op pin node r =
    let sent : Op = record op { node = node.id; start_ns = r.start_ns; end_ns = r.end_ns } in
    let done : Op = record sent {
      outcome = outcome_ok;
      ok = r.result.ok;
      present = r.result.present;
      ret_val = r.result.val;
    } in
    let unknown : Op = record sent { outcome = outcome_unknown } in
    let failed : Op = record sent { outcome = outcome_failed } in
    let give_up = (if r.late || is_some pin then finished (add c failed) failed else again sent) in
    let unsent = (if r.result.class == "fail" then give_up else again sent) in
    Turns-if c op (r.result.class == "ok") (finished (add (note_seen c done) done) done)
      (if r.result.class == "unknown" then finished (add c unknown) unknown else unsent)
      (closes (add (note_seen c done) done) done (
        Closes-add c (note_seen c done) op done (note_seen-recorded c done) refl refl refl
          (note_seen-nodes c done)))
      (Turns-if c op (r.result.class == "unknown") (finished (add c unknown) unknown) unsent
        (closes (add c unknown) unknown (Closes-add c c op unknown refl refl refl refl refl))
        (Turns-if c op (r.result.class == "fail") give_up (again sent)
          (Turns-if c op (r.late || is_some pin) (finished (add c failed) failed) (again sent)
            (closes (add c failed) failed (Closes-add c c op failed refl refl refl refl refl))
            (repeats sent refl refl))
          (repeats sent refl refl)))

-- Closing an operation that differs in what an attempt overwrites.
Outcomes-again :
    (c : Client) (op op' : Op) (x : Option (Client × Op))
    → op'.op ≡ op.op
    → op'.key ≡ op.key
    → Outcomes c op' x
    → Outcomes c op x
Outcomes-again c op op' _ p k endless = endless
Outcomes-again c op op' _ p k (closed c' done h) = closed c' done (record {
  recorded = h.recorded;
  classified = h.classified;
  same_op = h.same_op ∙ p;
  same_key = h.same_key ∙ k;
  same_nodes = h.same_nodes;
})

abbrev turned : (Op → Option (Client × Op)) → Turn → Option (Client × Op)
turned rest (finished c done) = some (c, done)
turned rest (again op) = rest op

abbrev at_node : Option Node → (Node → Option (Client × Op)) → Option (Client × Op)
at_node none f = none
at_node (some n) f = f n

invoke_from-cons :
    (c : Client) (op : Op) (pin : Option Node) (start attempt : ℕ) (r : Round) (rs : List Round)
    → invoke_from c op pin start attempt (r ∷ rs)
      ≡ at_node
          (node_for c pin start attempt)
          (λ node. turned (λ o. invoke_from c o pin start (attempt + 1) rs) (turn c op pin node r))
unfolding invoke_from
invoke_from-cons c op pin start attempt r rs = ground arith

Outcomes-turned :
    (c : Client) (op : Op) (rest : Op → Option (Client × Op))
    → ((o : Op) → Outcomes c o (rest o))
    → (t : Turn) → Turns c op t
    → Outcomes c op (turned rest t)
Outcomes-turned c op rest ih _ (closes c' done h) = closed c' done h
Outcomes-turned c op rest ih _ (repeats op' p k) = Outcomes-again c op op' _ p k (ih op')

Outcomes-at_node :
    (c : Client) (op : Op) (f : Node → Option (Client × Op))
    → ((n : Node) → Outcomes c op (f n))
    → (o : Option Node) → Outcomes c op (at_node o f)
Outcomes-at_node c op f h none = endless
Outcomes-at_node c op f h (some n) = h n

invoke_from-Outcomes :
    (c : Client) (pin : Option Node) (start : ℕ) (rounds : List Round) (attempt : ℕ) (op : Op)
    → Outcomes c op (invoke_from c op pin start attempt rounds)
unfolding invoke_from
invoke_from-Outcomes c pin start [] attempt op = endless
invoke_from-Outcomes c pin start (r ∷ rs) attempt op =
    let ih = λ (o : Op). invoke_from-Outcomes c pin start rs (attempt + 1) o in
    rw invoke_from-cons (
      Outcomes-at_node c op _
        (λ n. Outcomes-turned c op _ ih (turn c op pin n r) (turn-Turns c op pin n r))
        (node_for c pin start attempt))

-- Whenever a call of Invoke ends, it has added one record to the history, which is the one that it
-- returns: of the operation that it was given, with one of the three outcomes.
pub invoke-Outcomes :
    (c : Client) (op : Op) (pin : Option Node) (start : ℕ) (rounds : List Round)
    → Outcomes c op (invoke c op pin start rounds)
unfolding invoke
invoke-Outcomes c op pin start rounds = invoke_from-Outcomes c pin start rounds 0 op
