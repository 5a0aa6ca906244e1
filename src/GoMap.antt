-- ===== src/GoMap.antt =====
-- Go's `map[string]string`, which the FSM, its snapshots and the clients use: nil, or allocated and
-- holding entries. Keys and values are texts.
pub mod Laws
pub mod Order
use quorum_kv.Prelude.{
  String, Option, none, some, List, [], ◌∷◌, ◌==◌, if◌then◌else◌, ◌≡◌, Bool, true, false,
}

abbrev pub Entries {ℓ} : Type ℓ → Type ℓ
Entries V = List (String × V)

module _ {ℓ} {V : Type ℓ} where
  unfoldable pub lookup : String → Entries V → Option V
  lookup k [] = none
  lookup k ((j, v) ∷ l) = if j == k then some v else lookup k l

  unfoldable pub insert : String → V → Entries V → Entries V
  insert k v [] = (k, v) ∷ []
  insert k v ((j, w) ∷ l) = if j == k then (k, v) ∷ l else (j, w) ∷ insert k v l

  unfoldable pub without : String → Entries V → Entries V
  without k [] = []
  without k ((j, v) ∷ l) = let rest = without k l in if j == k then rest else (j, v) ∷ rest

  -- Each key stands once, as in a map.
  abbrev pub IsUnique : Entries V → Type ℓ
  IsUnique [] = Unit
  IsUnique ((k, v) ∷ l) = (lookup k l ≡ none) × IsUnique l

pub data GoMap {ℓ} (V : Type ℓ) : Type ℓ where
  nil_map : GoMap V
  made : Entries V → GoMap V

module _ {ℓ} {V : Type ℓ} where
  -- `for k, v := range m`: a nil map has no entries
  abbrev pub entries : GoMap V → Entries V
  entries nil_map = []
  entries (made l) = l

  abbrev pub is_nil : GoMap V → Bool
  is_nil nil_map = true
  is_nil (made l) = false

  -- `v, ok := m[k]`; a nil map may be read
  unfoldable pub get : GoMap V → String → Option V
  unfolding lookup
  get m k = lookup k (entries m)

  -- `delete(m, k)`; of a nil map it does nothing
  unfoldable pub delete : GoMap V → String → GoMap V
  unfolding without
  delete nil_map k = nil_map
  delete (made l) k = made (without k l)

  -- `m[k] = v`; `none` is the panic "assignment to entry in nil map"
  unfoldable pub assign : GoMap V → String → V → Option (GoMap V)
  unfolding insert
  assign nil_map k v = none
  assign (made l) k v = some (made (insert k v l))

  -- `for k, v := range l { out[k] = v }` for an allocated `out`
  unfoldable pub copy_into : Entries V → Entries V → Entries V
  unfolding insert
  copy_into out [] = out
  copy_into out ((k, v) ∷ l) = copy_into (insert k v out) l
