-- ===== src/Harness/Invoke/Records.antt =====
-- What the record of a finished call holds of the call and of the last attempt's response.
use quorum_kv.Prelude.{
  String, ◌≡◌, refl, Bool, true, false, ◌||◌, [], ◌∷◌, ◌==◌, eq_iff, arith, Option, if◌then◌else◌,
  ◌++◌,
}
use mathlib.Core.Path.{ap, subst}
use quorum_kv.History.{Op}
use quorum_kv.Harness.Nodes.{Node}
use quorum_kv.Checker.Operations.{input_of}
use quorum_kv.Harness.Invoke.{
  outcome_failed, outcome_unknown, Client, Round, Turn, finished, again, turn, add, note_seen,
  is_some,
}
use quorum_kv.Harness.Invoke.Attempts.{outcome_of}

-- `done` is the one record that is added: of this operation, with this round's times and outcome, and
-- what a success says.
pub record Recording (c : Client) (op : Op) (r : Round) (c' : Client) (done : Op) : Type 0 where
  pub recorded : c'.recorded ≡ c.recorded ++ done ∷ []
  pub input : input_of done ≡ input_of op
  pub start_ns : done.start_ns ≡ r.start_ns
  pub end_ns : done.end_ns ≡ r.end_ns
  pub outcome : done.outcome ≡ outcome_of r
  pub ok : r.result.class ≡ "ok" → done.ok ≡ r.result.ok
  pub present : r.result.class ≡ "ok" → done.present ≡ r.result.present
  pub ret_val : r.result.class ≡ "ok" → done.ret_val ≡ r.result.val

data Records (c : Client) (op : Op) (r : Round) : Turn → Type 0 where
  records : (c' : Client) (done : Op) → Recording c op r c' done → Records c op r (finished c' done)
  unrecorded : (op' : Op) → Records c op r (again op')

abbrev parts : Client → Op → Turn → Client × Op
parts c op (finished c' done) = (c', done)
parts c op (again op') = (c, op)

Records-finished :
    (c : Client) (op : Op) (r : Round) (t : Turn) (c' : Client) (done : Op)
    → Records c op r t
    → t ≡ finished c' done
    → Recording c op r c' done
Records-finished c op r _ c' done (records d e h) eq =
    subst (λ x. Recording c op r x.0 x.1) (ap (parts c op) eq) h
Records-finished c op r _ c' done (unrecorded o) eq = absurd cc

kept_seen : (c : Client) (o : Op) → (note_seen c o).recorded ≡ c.recorded
unfolding note_seen
kept_seen c o = ground arith

Records-if :
    (c : Client) (op : Op) (r : Round) (b : Bool) (t u : Turn)
    → (b ≡ true → Records c op r t)
    → (b ≡ false → Records c op r u)
    → Records c op r (if b then t else u)
Records-if c op r true t u h k = h refl
Records-if c op r false t u h k = k refl

-- A record that says nothing of an answer.
Recording-silent :
    (c : Client) (op : Op) (node : Node) (r : Round) (o : String)
    → (r.result.class == "ok") ≡ false
    → o ≡ outcome_of r
    → (let done : Op = record op {
      node = node.id;
      start_ns = r.start_ns;
      end_ns = r.end_ns;
      outcome = o;
    } in
        Recording c op r (add c done) done)
unfolding add
Recording-silent c op node r o e h =
    let silent : ¬ (r.result.class ≡ "ok") =
      λ k. absurd (ground (arith, eq_iff r.result.class "ok")) in
    record {
      recorded = refl;
      input = refl;
      start_ns = refl;
      end_ns = refl;
      outcome = h;
      ok = λ k. absurd (silent k);
      present = λ k. absurd (silent k);
      ret_val = λ k. absurd (silent k);
    }

turn-Records :
    (c : Client) (op : Op) (pin : Option Node) (node : Node) (r : Round)
    → Records c op r (turn c op pin node r)
unfolding turn add
turn-Records c op pin node r =
    Records-if c op r (r.result.class == "ok") _ _
      (λ e. records _ _ (record {
        recorded = rw kept_seen;
        input = refl;
        start_ns = refl;
        end_ns = refl;
        outcome = rw e;
        ok = λ _. refl;
        present = λ _. refl;
        ret_val = λ _. refl;
      }))
      (λ e.
        Records-if c op r (r.result.class == "unknown") _ _
          (λ e'. records _ _ (Recording-silent c op node r outcome_unknown e (rw (e, e'))))
          (λ e'.
            Records-if c op r (r.result.class == "fail") _ _
              (λ f.
                Records-if c op r (r.late || is_some pin) _ _
                  (λ g. records _ _ (Recording-silent c op node r outcome_failed e (rw (e, e'))))
                  (λ g. unrecorded _))
              (λ f. unrecorded _)))

pub turn-Recording :
    (c : Client) (op : Op) (pin : Option Node) (node : Node) (r : Round) (c' : Client) (done : Op)
    → turn c op pin node r ≡ finished c' done
    → Recording c op r c' done
turn-Recording c op pin node r c' done h =
    Records-finished c op r (turn c op pin node r) c' done (turn-Records c op pin node r) h
