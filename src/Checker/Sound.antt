-- ===== src/Checker/Sound.antt =====
-- What a history shows that the checker accepts: for every key there is an order of its operations in
-- which a store that starts empty gives answers that allow what was recorded.
use quorum_kv.Prelude.{
  String, ◌≡◌, refl, Bool, true, false, ◌&&◌, Option, none, some, List, [], ◌∷◌, ◌==◌, eq_iff,
  arith, ◌≢◌, All, ℕ,
}
use mathlib.Core.List.{Perm}
use mathlib.Core.List.Perm
use mathlib.Core.Path.{subst⁻¹}
use quorum_kv.Prelude.Int.{ℤ}
use quorum_kv.Prelude.{All-filter_map, All-Perm}
use quorum_kv.Kv.Spec.{Kind, get, kind_of, kind_of-name_of, answers}
use quorum_kv.History.{Op, outcome_ok, outcome_failed, outcome_unknown}
use quorum_kv.Checker.Model.{Operation, step}
use quorum_kv.Checker.Operations.{to_operation, to_operations, horizon, open_ended}
use quorum_kv.Checker.Linearizable.{Linearization, InTime}
use quorum_kv.Checker.Step.{reg, KnownAt, requests, Allowed, Accepts-iff-Allowed}
use quorum_kv.Checker.Kept.{part, kept, part-to_operations}
use quorum_kv.Checker.Partition.{part-of_partition}
use quorum_kv.Checker.Complete.{empty}
use quorum_kv.Checker.Check.{Porcupine, CheckResult, is_ok, check}

abbrev pub known : Option Kind → Bool
known none = false
known (some k) = true

-- The history names operations of the store only.
abbrev pub IsKnown : Op → Type 0
IsKnown o = known (kind_of o.op) ≡ true

abbrev Fits : String → Operation → Type 0
Fits k p = (known (kind_of p.input.op) && p.input.key == k) ≡ true

Bool-path_prop : (a b : Bool) → IsProp (a ≡ b)
Bool-path_prop a b = hlevel

kept-Fits :
    (h : ℤ) (k : String) (o : Op) (p : Operation) → kept h k o ≡ some p → IsKnown o → Fits k p
unfolding kept
kept-Fits h k o p e n = ground arith

known_kind : (o : Option Kind) → known o ≡ true → (k : Kind) × (o ≡ some k)
known_kind none h = cc
known_kind (some k) h = (k, refl)

and_left : (a b : Bool) → (a && b) ≡ true → a ≡ true
and_left a b h = ground arith

and_right : (a b : Bool) → (a && b) ≡ true → b ≡ true
and_right a b h = ground arith

All-KnownAt : (k : String) (os : List Operation) → All (Fits k) os → All (KnownAt k) os
All-KnownAt k [] h = tt
All-KnownAt k (o ∷ os) h =
    let (kind, e) = known_kind (kind_of o.input.op) (and_left _ _ h.0) in
    (
      (kind, e, (eq_iff o.input.key k).0 (and_right (known (kind_of o.input.op)) _ h.0)),
      All-KnownAt k os h.1,
    )

-- An order of operations on the key `k` that respects their times, and in which their recorded
-- outputs are allowed beside the answers of a store that starts empty; the outputs of puts and deletes
-- are allowed whatever they say.
pub record AllowedOrder (k : String) (ops : List Operation) : Type 0 where
  pub order : List Operation
  pub same : Perm order ops
  pub in_time : InTime order
  pub known_at : All (KnownAt k) order
  pub allowed : Allowed k order known_at (answers empty (requests k order known_at))

AllowedOrder-Linearization :
    (k : String) (ops : List Operation) → All (Fits k) ops → Linearization ops → AllowedOrder k ops
AllowedOrder-Linearization k ops f l = record {
  order = l.order;
  same = l.same;
  in_time = l.in_time;
  known_at = at;
  allowed = (Accepts-iff-Allowed k empty l.order at).0 l.accepted;
}
  where
    at : All (KnownAt k) l.order
    at = All-KnownAt k l.order (All-Perm (Fits k) (λ p. Bool-path_prop _ true) l.same f)

no_operations : Linearization []
no_operations = record { order = []; same = Perm.refl []; in_time = tt; accepted = tt }

ok_of_is_ok : (c : CheckResult) → is_ok c ≡ true → c ≡ CheckResult.ok
ok_of_is_ok c h = ground arith

-- If Check says that a history of known operations is linearizable, every key has an order of its
-- operations that respects their times, and in which, against a store that starts empty, each get saw
-- the key's presence and its value where present, and each cas whose outcome is known won or lost as
-- recorded. Nothing is said of what the puts and deletes reported, nor of the value that a cas reported.
pub check-AllowedOrder :
    (p : Porcupine) (ops : List Op) (timeout : ℕ)
    → All IsKnown ops
    → (check p ops timeout).linearizable ≡ true
    → (k : String) → AllowedOrder k (part k (to_operations ops))
unfolding check
check-AllowedOrder p ops timeout n h k =
    AllowedOrder-Linearization k (part k (to_operations ops))
      (subst⁻¹ (All (Fits k)) (part-to_operations k ops)
        (All-filter_map IsKnown (Fits k) (kept (horizon ops) k) (kept-Fits (horizon ops) k) ops n))
      (part-of_partition Linearization (to_operations ops) k no_operations
        (p.ok_sound (to_operations ops) timeout (ok_of_is_ok _ h)))

-- A read whose outcome is none of the three is passed on as an answer that the key was absent: the
-- model rejects it wherever the key is present, although the record says nothing of the answer.
pub unclassified_read :
    (h : ℤ) (o : Op)
    → o.outcome ≢ outcome_failed
    → o.outcome ≢ outcome_unknown
    → o.outcome ≢ outcome_ok
    → kind_of o.op ≡ some get
    → (to_operation h o ≡ some (open_ended h o))
      × ((v : String)
          → (step (reg (some v)) (open_ended h o).input (open_ended h o).output).0 ≡ false)
unfolding to_operation step
unclassified_read h o f u a g = (
  ground (
    arith,
    eq_iff o.outcome outcome_failed,
    eq_iff o.outcome outcome_unknown,
    eq_iff o.outcome outcome_ok,
  ),
  λ v. rw (kind_of-name_of get o.op g),
)
