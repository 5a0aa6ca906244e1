-- ===== src/Prelude/Lists.antt =====
-- Lists measured by native numbers, predicates and filters by a Boolean test.
use Prim.Native.Nat.{ℕ, suc, ◌+◌}
use mathlib.Core.Path.{◌≡◌, refl, subst⁻¹}
use mathlib.Core.Logic.{inl, inr}
use mathlib.Core.Logic.Or
use mathlib.Core.List.Perm
use mathlib.Core.List.{Mem, mem-cons, not-mem-nil, Perm}
use mathlib.Core.Option.{Option, some}
use mathlib.Core.List.{filter_map, filter_map-cons-none, filter_map-cons-some}
use quorum_kv.Prelude.Tests.{Option-cases}
use mathlib.Core.List.{List, [], ◌∷◌, ◌++◌}
use native.Mathlib.Omega.{arith}

module _ {ℓ} {A : Type ℓ} where
  abbrev pub length : List A → ℕ
  length [] = 0
  length (x ∷ xs) = suc (length xs)

  pub length-append : (xs ys : List A) → length (xs ++ ys) ≡ length xs + length ys
  length-append [] ys = omega arith
  length-append (x ∷ xs) ys = omega (arith, length-append xs ys)

module _ {ℓ κ} {A : Type ℓ} (P : A → Type κ) where
  abbrev pub All : List A → Type κ
  All [] = Unit
  All (x ∷ xs) = P x × All xs

  pub All-append : (xs ys : List A) → All xs → All ys → All (xs ++ ys)
  All-append [] ys _ hy = hy
  All-append (x ∷ xs) ys (px, hx) hy = (px, All-append xs ys hx hy)

module _ {ℓ κ μ} {A : Type ℓ} (P : A → Type κ) (Q : A → Type μ) where
  pub All-imp : ((a : A) → P a → Q a) → (xs : List A) → All P xs → All Q xs
  All-imp k [] h = tt
  All-imp k (x ∷ xs) h = (k x h.0, All-imp k xs h.1)

module _ {ℓ κ μ ν} {A : Type ℓ} {B : Type κ} (P : A → Type μ) (Q : B → Type ν)
    (f : A → Option B) where
  -- What holds of every element that a filter keeps.
  pub All-filter_map :
      ((a : A) (b : B) → f a ≡ some b → P a → Q b)
      → (xs : List A) → All P xs
      → All Q (filter_map f xs)
  All-filter_map keep [] h = unfold filter_map in tt
  All-filter_map keep (x ∷ xs) h = elim (Option-cases (f x)) [
    | inl e ↦ subst⁻¹ (All Q) (filter_map-cons-none f x xs e) (All-filter_map keep xs h.1)
    | inr (b, e) ↦
        subst⁻¹ (All Q) (filter_map-cons-some f x xs e) (keep x b e h.0, All-filter_map keep xs h.1)
  ]

All-get :
    {A : Type 0} (P : A → Type 0) (prop : (a : A) → IsProp (P a)) (xs : List A) (a : A)
    → All P xs
    → Mem a xs
    → P a
All-get P prop [] a h m = absurd (not-mem-nil m)
All-get P prop (x ∷ xs) a h m =
    Or.elim (prop a) (mem-cons.0 m) (λ e. subst⁻¹ P e h.0) (λ t. All-get P prop xs a h.1 t)

All-of_mem : {A : Type 0} (P : A → Type 0) (xs : List A) → ((a : A) → Mem a xs → P a) → All P xs
All-of_mem P [] h = tt
All-of_mem P (x ∷ xs) h =
    (h x (mem-cons.1 (Or.inl refl)), All-of_mem P xs (λ a m. h a (mem-cons.1 (Or.inr m))))

-- What holds of every element does so in every order.
pub All-Perm :
    {A : Type 0} (P : A → Type 0) (prop : (a : A) → IsProp (P a)) {xs ys : List A}
    → Perm xs ys
    → All P ys
    → All P xs
All-Perm P prop {xs} {ys} p h = All-of_mem P xs (λ a m. All-get P prop ys a h (Perm.subset p a m))
