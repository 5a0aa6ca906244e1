-- ===== src/Checker/Kept.antt =====
-- What becomes of a record in the part of one key, and when it was called and returned there.
use quorum_kv.Prelude.{
  String, ◌≡◌, Option, none, some, List, [], ◌∷◌, ◌==◌, eq_iff, arith, if◌then◌else◌, inl, inr, All,
  Option-cases,
}
use mathlib.Core.List.{
  filter_map, filter_map-cons-none, filter_map-cons-some, filter_map-filter_map,
}
use mathlib.Core.Option
use mathlib.Core.Path.{subst⁻¹}
use quorum_kv.Prelude.{All-filter_map}
use quorum_kv.Prelude.Int.{ℤ, ◌≤ℤ◌}
use quorum_kv.Kv.Spec.{Kind, put, get, delete, cas, kind_of, kind_of-name_of}
use quorum_kv.History.{Op, outcome_ok, outcome_failed, outcome_unknown}
use quorum_kv.Checker.Model.{Operation}
use quorum_kv.Checker.Operations.{to_operation, to_operations, horizon, open_ended, answered}
use quorum_kv.Checker.Linearizable.{InTime}

-- The operations on one key.
abbrev pub on_key : String → Operation → Option Operation
on_key k o = if o.input.key == k then some o else none

unfoldable pub part : String → List Operation → List Operation
part k = filter_map (on_key k)

-- What becomes of a record in the part of the key `k`.
unfoldable pub kept : ℤ → String → Op → Option Operation
unfolding to_operation Option.bind
kept h k o = Option.bind (to_operation h o) (on_key k)

pub part-to_operations :
    (k : String) (os : List Op) → part k (to_operations os) ≡ filter_map (kept (horizon os) k) os
part-to_operations k os =
    unfold part to_operations kept in
    filter_map-filter_map (to_operation (horizon os)) (on_key k) os

abbrev pub Later : ℤ → Op → Type 0
Later t o = o.outcome ≡ outcome_ok → t ≤ℤ o.end_ns

pub kept-call :
    (h : ℤ) (k : String) (o : Op) (p : Operation) → kept h k o ≡ some p → p.call ≡ o.start_ns
unfolding kept
kept-call h k o p e = ground arith

pub kept-return :
    (h : ℤ) (k : String) (t : ℤ) (o : Op) (p : Operation)
    → t ≤ℤ h
    → kept h k o ≡ some p
    → Later t o
    → t ≤ℤ p.return
unfolding kept
kept-return h k t o p b e l = ground (arith, eq_iff o.outcome outcome_ok)

-- A record stands in the list before those that returned after it was called.
abbrev pub TimeOrdered : List Op → Type 0
TimeOrdered [] = Unit
TimeOrdered (o ∷ os) = All (Later o.start_ns) os × TimeOrdered os

pub InTime-kept :
    (h : ℤ) (k : String) (os : List Op)
    → All (λ o. o.start_ns ≤ℤ h) os
    → TimeOrdered os
    → InTime (filter_map (kept h k) os)
InTime-kept h k [] b t = unfold filter_map in tt
InTime-kept h k (o ∷ os) b t = elim (Option-cases (kept h k o)) [
  | inl e ↦ subst⁻¹ InTime (filter_map-cons-none (kept h k) o os e) (InTime-kept h k os b.1 t.1)
  | inr (p, e) ↦ subst⁻¹ InTime (filter_map-cons-some (kept h k) o os e) (
    All-filter_map (Later o.start_ns) (λ q. p.call ≤ℤ q.return) (kept h k)
        (λ a q ea l. rw (kept-call h k o p e) (kept-return h k o.start_ns a q b.0 ea l)) os t.0,
    InTime-kept h k os b.1 t.1,
  )
]

-- What ToOperations appends for each outcome.
pub to_operation-ok :
    (h : ℤ) (o : Op) → o.outcome ≡ outcome_ok → to_operation h o ≡ some (answered o)
unfolding to_operation
to_operation-ok h o e = rw e

pub to_operation-failed : (h : ℤ) (o : Op) → o.outcome ≡ outcome_failed → to_operation h o ≡ none
unfolding to_operation
to_operation-failed h o e = rw e

-- Of an unknown outcome all but a read is kept.
abbrev pub mutation : Kind → Operation → Option Operation
mutation get p = none
mutation _ p = some p

pub to_operation-unknown :
    (h : ℤ) (k : Kind) (o : Op)
    → kind_of o.op ≡ some k
    → o.outcome ≡ outcome_unknown
    → to_operation h o ≡ mutation k (open_ended h o)
unfolding to_operation
to_operation-unknown h put o n e = rw (e, kind_of-name_of put o.op n)
to_operation-unknown h get o n e = rw (e, kind_of-name_of get o.op n)
to_operation-unknown h delete o n e = rw (e, kind_of-name_of delete o.op n)
to_operation-unknown h cas o n e = rw (e, kind_of-name_of cas o.op n)

pub kept-none : (h : ℤ) (k : String) (o : Op) → to_operation h o ≡ none → kept h k o ≡ none
unfolding kept
kept-none h k o e = rw e

pub kept-some :
    (h : ℤ) (k : String) (o : Op) (p : Operation)
    → to_operation h o ≡ some p
    → kept h k o ≡ on_key k p
unfolding kept
kept-some h k o p e = rw e
