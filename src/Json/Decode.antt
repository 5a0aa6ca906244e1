-- ===== src/Json/Decode.antt =====
-- Go's Unmarshal of a document into a struct. Fields are taken in the document's order; a name is
-- found exactly or, failing that, up to case; unknown names are skipped; a value of a wrong type
-- leaves the field as it was and the first such error is returned at the end; `null` leaves a field
-- that is no pointer as it was.
use Prim.Native.Char.{code}
use quorum_kv.Prelude.{
  ℕ, ◌+◌, String, Bool, true, false, ◌&&◌, Option, none, some, List, [], ◌∷◌, ◌==◌, leb, nat_eq,
  if◌then◌else◌, Try, ok, err,
}
use quorum_kv.Prelude.Int.{ℤ, pos, negsuc, max_int64}
use quorum_kv.Json.{
  Json, null, bool, num, str, obj, Fields, end, field, JsonError, syntax, mismatch, JsonText, Bytes,
}

-- The simple folding of names: A-Z, and the two letters outside ASCII that fold into it.
abbrev fold_code : ℕ → ℕ
fold_code c =
    if leb 65 c && leb c 90
    then c + 32
    else if nat_eq c 0x212a
    then 107
    else if nat_eq c 0x17f
    then 115
    else c

abbrev fold_name : String → List ℕ
fold_name String.[] = []
fold_name (String.◌∷◌ c s) = fold_code (code c) ∷ fold_name s

abbrev same_codes : List ℕ → List ℕ → Bool
same_codes [] [] = true
same_codes [] (d ∷ ds) = false
same_codes (c ∷ cs) [] = false
same_codes (c ∷ cs) (d ∷ ds) = nat_eq c d && same_codes cs ds

abbrev same_name : String → String → Bool
same_name s t = same_codes (fold_name s) (fold_name t)

-- How a value is read into a variable: the new value, and whether the type fitted.
abbrev pub Reader {ℓ} : Type ℓ → Type ℓ
Reader A = Json → A → A × Bool

abbrev pub read_string : Reader String
read_string (str s) old = (s, true)
read_string null old = (old, true)
read_string _ old = (old, false)

abbrev pub read_bool : Reader Bool
read_bool (bool b) old = (b, true)
read_bool null old = (old, true)
read_bool _ old = (old, false)

-- an int or int64 field: a number out of range does not fit
abbrev pub read_int64 : Reader ℤ
read_int64 (num (pos n)) old = if leb n max_int64 then (pos n, true) else (old, false)
read_int64 (num (negsuc n)) old = if leb n max_int64 then (negsuc n, true) else (old, false)
read_int64 null old = (old, true)
read_int64 _ old = (old, false)

-- a `*string` field: `null` makes it nil; a wrong type leaves it pointing at a string
abbrev pub read_string_pointer : Reader (Option String)
read_string_pointer (str s) old = (some s, true)
read_string_pointer null old = (none, true)
read_string_pointer _ none = (some "", false)
read_string_pointer _ (some s) = (some s, false)

-- A field of the struct `S`, with its name in the document.
pub record Slot {ℓ} (S : Type ℓ) : Type ℓ where
  pub name : String
  pub fill : Json → S → S × Bool

abbrev or_first : Option JsonError → String → Bool → Option JsonError
or_first (some e) name fits = some e
or_first none name true = none
or_first none name false = some (mismatch name)

module _ {ℓ} {S : Type ℓ} where
  abbrev find_by : (String → Bool) → List (Slot S) → Option (Slot S)
  find_by test [] = none
  find_by test (f ∷ fs) = if test f.name then some f else find_by test fs

  abbrev find_slot : List (Slot S) → String → Option (Slot S)
  find_slot slots key = elim (find_by (λ n. n == key) slots) [
    | some f ↦ some f
    | none ↦ find_by (λ n. same_name n key) slots
  ]

  abbrev fill_slot : Option (Slot S) → Json → S × Option JsonError → S × Option JsonError
  fill_slot none v acc = acc
  fill_slot (some f) v (s, e) = let (s', fits) = f.fill v s in (s', or_first e f.name fits)

  unfoldable pub fill_fields : List (Slot S) → Fields → S × Option JsonError → S × Option JsonError
  fill_fields slots end acc = acc
  fill_fields slots (field key v rest) acc =
      fill_fields slots rest (fill_slot (find_slot slots key) v acc)

  -- the struct, filled as far as it went, and the error
  unfoldable pub fill_struct : List (Slot S) → Json → S → S × Option JsonError
  unfolding fill_fields
  fill_struct slots null s = (s, none)
  fill_struct slots (obj fs) s = fill_fields slots fs (s, none)
  fill_struct slots _ s = (s, some (mismatch ""))

  abbrev fill_parsed : List (Slot S) → S → Try String Json → S × Option JsonError
  fill_parsed slots s (err m) = (s, some (syntax m))
  fill_parsed slots s (ok j) = fill_struct slots j s

  -- json.Unmarshal(b, &s)
  unfoldable pub unmarshal : JsonText → List (Slot S) → Bytes → S → S × Option JsonError
  unfolding fill_struct
  unmarshal text slots b s = fill_parsed slots s (text.parse b)
