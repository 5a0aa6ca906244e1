-- ===== src/GoMap/Laws.antt =====
-- What a lookup sees after each write, and that writes keep each key once.
use quorum_kv.Prelude.{
  String, Option, none, some, [], ◌∷◌, ◌==◌, eq_iff, if◌then◌else◌, ◌≡◌, refl, arith,
}
use quorum_kv.GoMap.{Entries, lookup, insert, without, copy_into, IsUnique}

module _ {ℓ} {V : Type ℓ} where
  pub lookup-insert :
      (k j : String) (v : V) (l : Entries V)
      → lookup j (insert k v l) ≡ (if k == j then some v else lookup j l)
  unfolding lookup insert
  lookup-insert k j v [] = refl
  lookup-insert k j v ((i, w) ∷ l) =
      ground (arith, eq_iff k j, eq_iff i k, eq_iff i j, lookup-insert k j v l)

  pub lookup-without :
      (k j : String) (l : Entries V)
      → lookup j (without k l) ≡ (if k == j then none else lookup j l)
  unfolding lookup without
  lookup-without k j [] = ground arith
  lookup-without k j ((i, w) ∷ l) =
      ground (arith, eq_iff k j, eq_iff i k, eq_iff i j, lookup-without k j l)

  pub insert-IsUnique : (k : String) (v : V) (l : Entries V) → IsUnique l → IsUnique (insert k v l)
  unfolding lookup insert
  insert-IsUnique k v [] u = (refl, tt)
  insert-IsUnique k v ((j, w) ∷ l) u =
      ground (arith, eq_iff j k, eq_iff k j, insert-IsUnique k v l u.1, lookup-insert k j v l)

  pub without-IsUnique : (k : String) (l : Entries V) → IsUnique l → IsUnique (without k l)
  unfolding lookup without
  without-IsUnique k [] u = tt
  without-IsUnique k ((j, w) ∷ l) u = ground (arith, without-IsUnique k l u.1, lookup-without k j l)

  -- The last write wins, and the entries written have each key once.
  pub lookup-copy_into :
      (l out : Entries V) (j : String)
      → IsUnique l
      → lookup j (copy_into out l)
        ≡ elim (lookup j l) as (λ _. Option V) [ none ↦ lookup j out | some v ↦ some v ]
  unfolding lookup copy_into
  lookup-copy_into [] out j u = refl
  lookup-copy_into ((k, v) ∷ l) out j u =
      ground
        (arith, eq_iff k j, lookup-copy_into l (insert k v out) j u.1, lookup-insert k j v out, u.0)

  pub copy_into-IsUnique : (l out : Entries V) → IsUnique out → IsUnique (copy_into out l)
  unfolding copy_into
  copy_into-IsUnique [] out u = u
  copy_into-IsUnique ((k, v) ∷ l) out u =
      copy_into-IsUnique l (insert k v out) (insert-IsUnique k v out u)
