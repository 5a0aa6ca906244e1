-- ===== src/System/Places.antt =====
-- Taking one element out of a list, and putting another in its place.
use quorum_kv.Prelude.{[], ◌++◌, ◌≡◌, List, ◌∷◌, map, ap, All}
use mathlib.Core.List.Perm
use mathlib.Core.List.{Perm}

module _ {ℓ} {A : Type ℓ} where
  pub data Removes (a : A) : List A → List A → Type ℓ where
    here : (l : List A) → Removes a (a ∷ l) l
    there : (b : A) (l l' : List A) → Removes a l l' → Removes a (b ∷ l) (b ∷ l')

  pub data Replaces (a b : A) : List A → List A → Type ℓ where
    here : (l : List A) → Replaces a b (a ∷ l) (b ∷ l)
    there : (c : A) (l l' : List A) → Replaces a b l l' → Replaces a b (c ∷ l) (c ∷ l')

  pub Replaces-behind : (a b : A) (l l' : List A) → Replaces a b (l ++ a ∷ l') (l ++ b ∷ l')
  Replaces-behind a b [] l' = here l'
  Replaces-behind a b (c ∷ l) l' = there c _ _ (Replaces-behind a b l l')

  pub Removes-Perm : (a : A) (l l' : List A) → Removes a l l' → Perm l (a ∷ l')
  Removes-Perm a _ _ (here l) = Perm.refl (a ∷ l)
  Removes-Perm a _ _ (there b l l' r) =
      Perm.trans (Perm.cons b (Removes-Perm a l l' r)) (Perm.swap a b l')

module _ {ℓ κ} {A : Type ℓ} {B : Type κ} (f : A → B) where
  -- A function that does not tell the two apart maps both lists to the same.
  pub Replaces-map : (a b : A) (l l' : List A) → f b ≡ f a → Replaces a b l l' → map f l' ≡ map f l
  Replaces-map a b _ _ e (here l) = ap (λ x. x ∷ map f l) e
  Replaces-map a b _ _ e (there c l l' r) = ap (λ xs. f c ∷ xs) (Replaces-map a b l l' e r)

module _ {ℓ κ} {A : Type ℓ} (P : A → Type κ) where
  pub Removes-All : (a : A) (l l' : List A) → Removes a l l' → All P l → P a × All P l'
  Removes-All a _ _ (here l) h = h
  Removes-All a _ _ (there b l l' r) h =
      let (own, rest) = Removes-All a l l' r h.1 in (own, (h.0, rest))

  pub Replaces-All :
      (a b : A) (l l' : List A) → Replaces a b l l' → (P a → P b) → All P l → All P l'
  Replaces-All a b _ _ (here l) k h = (k h.0, h.1)
  Replaces-All a b _ _ (there c l l' r) k h = (h.0, Replaces-All a b l l' r k h.1)

  pub Replaces-get : (a b : A) (l l' : List A) → Replaces a b l l' → All P l → P a
  Replaces-get a b _ _ (here l) h = h.0
  Replaces-get a b _ _ (there c l l' r) h = Replaces-get a b l l' r h.1
