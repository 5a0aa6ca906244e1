-- ===== src/Checker/Carry.antt =====
-- How the model takes the records of a truthful history, one at a time.
use quorum_kv.Prelude.{
  String, ◌≡◌, refl, ap, sym, ◌∙◌, true, none, some, List, [], ◌∷◌, ◌==◌, eq_iff, eq_refl, arith,
  inl, inr, All, Bool-cases, Option-cases,
}
use mathlib.Core.List.{filter_map, filter_map-cons-none, filter_map-cons-some}
use mathlib.Core.Path.{subst, subst⁻¹}
use mathlib.Core.Option.{some-injective}
use quorum_kv.Prelude.Int.{ℤ}
use quorum_kv.Kv.Command.{Result}
use quorum_kv.Kv.Spec.{
  Kind, put, get, delete, cas, kind_of, kind_of-name_of, next, answer, Registers, update,
}
use quorum_kv.History.{Op}
use quorum_kv.Checker.Model.{KvOutput, KvState, Operation, step}
use quorum_kv.Checker.Operations.{to_operation, input_of, open_ended, answered}
use quorum_kv.Checker.Linearizable.{Accepts}
use quorum_kv.Checker.Step.{reg, command_of, allows, step-allows, step-next}
use quorum_kv.Checker.Record.{Committed, Truthful, Lost}
use quorum_kv.Checker.Kept.{
  kept, on_key, mutation, on_key, to_operation-ok, to_operation-failed, to_operation-unknown,
  kept-none, kept-some,
}

-- An output that carries the answer is allowed beside it, and so does an unknown one but of a get.
allows-same :
    (k : Kind) (out : KvOutput) (r : Result)
    → out.ok ≡ r.ok
    → out.present ≡ r.present
    → out.val ≡ r.value
    → allows k out r ≡ true
allows-same put out r a b c = refl
allows-same get out r a b c = rw (b, c) (ground (arith, eq_refl r.value))
allows-same delete out r a b c = refl
allows-same cas out r a b c = rw a (ground arith)

-- In every state Step accepts what is kept of an operation of unknown outcome.
step-mutation :
    (h : ℤ) (k : Kind) (o : Op) (p : Operation) (st : KvState)
    → kind_of o.op ≡ some k
    → mutation k (open_ended h o) ≡ some p
    → (step st p.input p.output).0 ≡ true
unfolding step
step-mutation h get o p st n e = cc
step-mutation h put o p st n e =
    subst (λ q. (step st q.input q.output).0 ≡ true) (some-injective _ _ e)
      (rw (kind_of-name_of put o.op n))
step-mutation h delete o p st n e =
    subst (λ q. (step st q.input q.output).0 ≡ true) (some-injective _ _ e)
      (rw (kind_of-name_of delete o.op n))
step-mutation h cas o p st n e =
    subst (λ q. (step st q.input q.output).0 ≡ true) (some-injective _ _ e)
      (rw (kind_of-name_of cas o.op n) (ground arith))

on_key-some : (k : String) (q p : Operation) → on_key k q ≡ some p → q ≡ p
on_key-some k q p e = ground arith

step-Lost-unknown :
    (h : ℤ) (key : String) (k : Kind) (o : Op) (p : Operation) (st : KvState)
    → kind_of o.op ≡ some k
    → to_operation h o ≡ mutation k (open_ended h o)
    → kept h key o ≡ some p
    → (step st p.input p.output).0 ≡ true
step-Lost-unknown h key get o p st n m e = cc (kept-none h key o m)
step-Lost-unknown h key put o p st n m e =
    step-mutation h put o p st n (ap some (on_key-some key _ p (sym (kept-some h key o _ m) ∙ e)))
step-Lost-unknown h key delete o p st n m e =
    step-mutation h delete o p st n
      (ap some (on_key-some key _ p (sym (kept-some h key o _ m) ∙ e)))
step-Lost-unknown h key cas o p st n m e =
    step-mutation h cas o p st n (ap some (on_key-some key _ p (sym (kept-some h key o _ m) ∙ e)))

step-Lost :
    (h : ℤ) (k : String) (o : Op) (p : Operation) (st : KvState)
    → Lost o
    → kept h k o ≡ some p
    → (step st p.input p.output).0 ≡ true
step-Lost h k o p st l e = elim l.outcome [
  | inl failed ↦ cc (kept-none h k o (to_operation-failed h o failed))
  | inr unknown ↦
      step-Lost-unknown h k l.known.0 o p st l.known.1
        (to_operation-unknown h l.known.0 o l.known.1 unknown) e
]

pub Accepts-Lost :
    (h : ℤ) (k : String) (os : List Op) (st : KvState)
    → All Lost os
    → Accepts st (filter_map (kept h k) os)
Accepts-Lost h k [] st l = unfold filter_map in tt
Accepts-Lost h k (o ∷ os) st l = elim (Option-cases (kept h k o)) [
  | inl e ↦
      subst⁻¹ (Accepts st) (filter_map-cons-none (kept h k) o os e) (Accepts-Lost h k os st l.1)
  | inr (p, e) ↦
      subst⁻¹ (Accepts st) (filter_map-cons-some (kept h k) o os e)
        (step-Lost h k o p st l.0 e, Accepts-Lost h k os _ l.1)
]

-- What becomes of a truthful record of an operation in the part of the key `k`: it is left out and
-- the key's register stays, or Step accepts it and moves to the key's next register.
pub data Carried (h : ℤ) (k : String) (s s' : Registers) (o : Op) : Type 0 where
  skipped : kept h k o ≡ none → s' k ≡ s k → Carried h k s s' o
  stepped :
      (p : Operation)
      → kept h k o ≡ some p
      → (step (reg (s k)) p.input p.output).0 ≡ true
      → (step (reg (s k)) p.input p.output).1 ≡ reg (s' k)
      → Carried h k s s' o

abbrev pub moved : Registers → Committed → Registers
moved s c = update s c.op.key (next c.kind (command_of (input_of c.op)) (s c.op.key))

-- A record that is kept with an output that is allowed beside the store's answer.
carry-kept :
    (h : ℤ) (k : String) (s : Registers) (c : Committed) (q : Operation)
    → to_operation h c.op ≡ some q
    → q.input ≡ input_of c.op
    → allows c.kind q.output (answer c.kind (command_of (input_of c.op)) (s c.op.key)) ≡ true
    → Carried h k s (moved s c) c.op
carry-kept h k s c q e i a = elim (Bool-cases (c.op.key == k)) [
  | inl at ↦
      (let here : c.op.key ≡ k = (eq_iff c.op.key k).0 at in
        let accepted : (step (reg (s k)) (input_of c.op) q.output).0 ≡ true =
          step-allows c.kind (input_of c.op) q.output (s k) c.known
          ∙ subst
              (λ x.
                allows c.kind q.output (answer c.kind (command_of (input_of c.op)) (s x)) ≡ true)
              here a in
        let goes : moved s c k ≡ next c.kind (command_of (input_of c.op)) (s k) =
          rw at (ap (λ x. next c.kind (command_of (input_of c.op)) (s x)) here) in
        stepped q (kept-some h k c.op q e ∙ rw (i, at)) (rw i accepted) (
          rw i
            (step-next c.kind (input_of c.op) q.output (s k) c.known accepted ∙ ap reg (sym goes))))
  | inr off ↦ skipped (kept-some h k c.op q e ∙ rw (i, off)) (rw off)
]

carry-unknown :
    (h : ℤ) (key : String) (s : Registers) (c : Committed) (k : Kind)
    → c.kind ≡ k
    → to_operation h c.op ≡ mutation k (open_ended h c.op)
    → Carried h key s (moved s c) c.op
carry-unknown h key s c get n m =
    skipped (kept-none h key c.op m) (rw n (ground (arith, eq_iff c.op.key key)))
carry-unknown h key s c put n m = carry-kept h key s c _ m refl (rw n)
carry-unknown h key s c delete n m = carry-kept h key s c _ m refl (rw n)
carry-unknown h key s c cas n m = carry-kept h key s c _ m refl (rw n)

pub carry :
    (h : ℤ) (k : String) (s : Registers) (c : Committed)
    → Truthful c (answer c.kind (command_of (input_of c.op)) (s c.op.key))
    → Carried h k s (moved s c) c.op
carry h k s c t = elim t.outcome [
  | inl acked ↦
      carry-kept h k s c (answered c.op) (to_operation-ok h c.op acked) refl (
        allows-same c.kind (answered c.op).output _ (t.ok acked) (t.present acked)
          (t.ret_val acked))
  | inr unknown ↦
      carry-unknown h k s c c.kind refl (to_operation-unknown h c.kind c.op c.known unknown)
]
