-- ===== src/GoMap/Order.antt =====
-- Entries sorted by key, as encoding/json writes a map.
use Prim.Native.String.{compare}
use text.Mathlib.Text.{is_lt}
use text.Mathlib.TextPositions.{compare_refl}
use quorum_kv.Prelude.{
  ap, String, none, some, [], ◌∷◌, ◌==◌, eq_iff, if◌then◌else◌, ◌≡◌, refl, arith, true, ◌≢◌,
}
use quorum_kv.GoMap.{Entries, lookup, IsUnique}

module _ {ℓ} {V : Type ℓ} where
  unfoldable pub insert_sorted : String → V → Entries V → Entries V
  insert_sorted k v [] = (k, v) ∷ []
  insert_sorted k v ((j, w) ∷ l) =
      if is_lt (compare j k) then (j, w) ∷ insert_sorted k v l else (k, v) ∷ (j, w) ∷ l

  unfoldable pub sort_keys : Entries V → Entries V
  unfolding insert_sorted
  sort_keys [] = []
  sort_keys ((k, v) ∷ l) = insert_sorted k v (sort_keys l)

not_below_itself : (j k : String) → is_lt (compare j k) ≡ true → j ≢ k
not_below_itself j k h e = ground (arith, compare_refl k, ap (λ s. is_lt (compare s k)) e)

module _ {ℓ} {V : Type ℓ} where
  lookup-insert_sorted :
      (k j : String) (v : V) (l : Entries V)
      → lookup j (insert_sorted k v l) ≡ (if k == j then some v else lookup j l)
  unfolding lookup insert_sorted
  lookup-insert_sorted k j v [] = refl
  lookup-insert_sorted k j v ((i, w) ∷ l) =
      ground (arith, eq_iff k j, eq_iff i j, not_below_itself i k, lookup-insert_sorted k j v l)

  pub lookup-sort_keys : (l : Entries V) (j : String) → lookup j (sort_keys l) ≡ lookup j l
  unfolding lookup sort_keys
  lookup-sort_keys [] j = refl
  lookup-sort_keys ((k, v) ∷ l) j =
      ground (arith, lookup-insert_sorted k j v (sort_keys l), lookup-sort_keys l j)

  insert_sorted-IsUnique :
      (k : String) (v : V) (l : Entries V)
      → lookup k l ≡ none
      → IsUnique l
      → IsUnique (insert_sorted k v l)
  unfolding lookup insert_sorted
  insert_sorted-IsUnique k v [] h u = (refl, tt)
  insert_sorted-IsUnique k v ((j, w) ∷ l) h u =
      ground
        (arith, eq_iff k j, eq_iff j k, lookup-insert_sorted k j v l, insert_sorted-IsUnique k v l)

  pub sort_keys-IsUnique : (l : Entries V) → IsUnique l → IsUnique (sort_keys l)
  unfolding sort_keys
  sort_keys-IsUnique [] u = tt
  sort_keys-IsUnique ((k, v) ∷ l) u =
      insert_sorted-IsUnique k v (sort_keys l) (rw lookup-sort_keys u.0) (sort_keys-IsUnique l u.1)
