-- ===== src/System/Lists.antt =====
-- What the steps do to the records, the times and the requests of the log.
use quorum_kv.Prelude.{◌≡◌, refl, Option, none, some, List, [], ◌∷◌, ◌++◌, All, All-append, ℕ, ◌≤◌}
use mathlib.Core.List.{Perm}
use mathlib.Core.List.Perm
use mathlib.Core.Path.{subst⁻¹}
use quorum_kv.History.{Op}
use quorum_kv.System.{Entry, closed}
use quorum_kv.System.Places.{Replaces, here, there}

abbrev pub Sorted : List ℕ → Type 0
Sorted [] = Unit
Sorted (t ∷ ts) = All (λ u. t ≤ u) ts × Sorted ts

pub Sorted-snoc : (ts : List ℕ) (n : ℕ) → All (λ t. t ≤ n) ts → Sorted ts → Sorted (ts ++ n ∷ [])
Sorted-snoc [] n b h = (tt, tt)
Sorted-snoc (t ∷ ts) n b h =
    (All-append (λ u. t ≤ u) ts (n ∷ []) h.0 (b.0, tt), Sorted-snoc ts n b.1 h.1)

abbrev pub add_closing : Option Op → List Op → List Op
add_closing none os = os
add_closing (some o) os = o ∷ os

-- The records of the calls in the log that have ended.
abbrev pub records_of : List Entry → List Op
records_of [] = []
records_of (e ∷ l) = add_closing e.closing (records_of l)

pub records_of-snoc :
    (l : List Entry) (e : Entry)
    → records_of (l ++ e ∷ []) ≡ records_of l ++ add_closing e.closing []
records_of-snoc [] e = refl
records_of-snoc (d ∷ l) e = rw (records_of-snoc l e) (add_closing-append d.closing (records_of l) _)
  where
    add_closing-append :
        (o : Option Op) (xs ys : List Op) → add_closing o (xs ++ ys) ≡ add_closing o xs ++ ys
    add_closing-append none xs ys = refl
    add_closing-append (some o) xs ys = refl

Perm-add_closing :
    (o : Option Op) (done : Op) (xs ys : List Op)
    → Perm xs (done ∷ ys)
    → Perm (add_closing o xs) (done ∷ add_closing o ys)
Perm-add_closing none done xs ys p = p
Perm-add_closing (some o) done xs ys p = Perm.trans (Perm.cons o p) (Perm.swap done o ys)

-- Closing an entry adds its record.
pub records_of-Replaces :
    (e : Entry) (done : Op) (l l' : List Entry)
    → e.closing ≡ none
    → Replaces e (closed e done) l l'
    → Perm (records_of l') (done ∷ records_of l)
records_of-Replaces e done _ _ h (here l) =
    subst⁻¹ (λ o. Perm (done ∷ records_of l) (done ∷ add_closing o (records_of l))) h
      (Perm.refl (done ∷ records_of l))
records_of-Replaces e done _ _ h (there d l l' r) =
    Perm-add_closing d.closing done (records_of l') (records_of l)
      (records_of-Replaces e done l l' h r)
