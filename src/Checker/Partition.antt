-- ===== src/Checker/Partition.antt =====
-- Partition splits a history by key: what it gives are the parts of the keys that occur.
use quorum_kv.Prelude.{
  String, ◌≡◌, refl, ap, sym, ◌∙◌, some, List, [], ◌∷◌, map, ◌==◌, eq_iff, eq_refl, arith,
  if◌then◌else◌, inl, inr, All, Bool-cases, Option-cases, ◌++◌,
}
use mathlib.Core.List.{filter_map, append_assoc, append-nil}
use quorum_kv.GoMap.{Entries, lookup, insert, IsUnique}
use mathlib.Core.Path.{subst}
use quorum_kv.GoMap.Laws.{lookup-insert, insert-IsUnique}
use quorum_kv.Checker.Model.{Operation, by_key, or_empty, partition}
use quorum_kv.Checker.Kept.{part}

part-cons :
    (k : String) (o : Operation) (os : List Operation)
    → part k (o ∷ os) ≡ (if o.input.key == k then o ∷ part k os else part k os)
unfolding part filter_map
part-cons k o os = ground arith

part-nil : (k : String) → part k [] ≡ []
unfolding part filter_map
part-nil k = refl

by_key-part :
    (m : Entries (List Operation)) (os : List Operation) (k : String)
    → or_empty (lookup k (by_key m os)) ≡ or_empty (lookup k m) ++ part k os
unfolding by_key
by_key-part m [] k = rw part-nil (sym (append-nil _))
by_key-part m (o ∷ os) k =
    by_key-part (insert o.input.key added m) os k ∙ elim (Bool-cases (o.input.key == k)) [
      | inl here ↦
          rw (lookup-insert, part-cons, here)
            (ap (λ x. (or_empty (lookup x m) ++ o ∷ []) ++ part k os)
                ((eq_iff o.input.key k).0 here)
              ∙ append_assoc (or_empty (lookup k m)) (o ∷ []) (part k os))
      | inr off ↦ rw (lookup-insert, part-cons, off)
    ]
  where
    added : List Operation
    added = or_empty (lookup o.input.key m) ++ o ∷ []

by_key-IsUnique :
    (m : Entries (List Operation)) (os : List Operation) → IsUnique m → IsUnique (by_key m os)
unfolding by_key
by_key-IsUnique m [] u = u
by_key-IsUnique m (o ∷ os) u =
    by_key-IsUnique (insert o.input.key (or_empty (lookup o.input.key m) ++ o ∷ []) m) os
      (insert-IsUnique o.input.key _ m u)

-- What holds of every value that a lookup finds holds of every entry.
All-values :
    (P : List Operation → Type 0) (m : Entries (List Operation))
    → IsUnique m
    → ((k : String) (v : List Operation) → lookup k m ≡ some v → P v)
    → All P (map (λ e. e.1) m)
unfolding lookup
All-values P [] u h = tt
All-values P ((j, v) ∷ m) u h = (
  h j v (ground (arith, eq_refl j)),
  All-values P m u.1 (λ k w e. h k w (ground (arith, eq_iff j k, u.0, e))),
)

-- What holds of every key's part holds of every part that Partition gives.
pub All-partition :
    (P : List Operation → Type 0) (os : List Operation)
    → ((k : String) → P (part k os))
    → All P (partition os)
unfolding partition
All-partition P os h =
    All-values P (by_key [] os) (by_key-IsUnique [] os tt)
      λ k v e. subst P (sym (by_key-part [] os k) ∙ ap or_empty e) (h k)

value_of_lookup :
    (P : List Operation → Type 0) (m : Entries (List Operation)) (k : String) (w : List Operation)
    → All P (map (λ e. e.1) m)
    → lookup k m ≡ some w
    → P w
unfolding lookup
value_of_lookup P [] k w a e = cc
value_of_lookup P ((j, v) ∷ m) k w a e = elim (Bool-cases (j == k)) [
  | inl here ↦ subst P (ground (arith, here, e)) a.0
  | inr off ↦ value_of_lookup P m k w a.1 (ground (arith, off, e))
]

-- What holds of every part that Partition gives, and of no operations, holds of every key's part.
pub part-of_partition :
    (P : List Operation → Type 0) (os : List Operation) (k : String)
    → P []
    → All P (partition os)
    → P (part k os)
unfolding partition
part-of_partition P os k none_of a = elim (Option-cases (lookup k (by_key [] os))) [
  | inl e ↦ subst P (ap or_empty (sym e) ∙ by_key-part [] os k) none_of
  | inr (w, e) ↦
      subst P (ap or_empty (sym e) ∙ by_key-part [] os k) (value_of_lookup P (by_key [] os) k w a e)
]
