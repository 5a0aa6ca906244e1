-- ===== src/Specs.antt =====
-- Lists of "a@b@c" specs, as ParsePeers and ParseNodes read them.
use quorum_kv.Prelude.{
  arith, ◌≡◌, String, Option, none, some, List, [], ◌∷◌, ◌==◌, if◌then◌else◌, Try, ok, err, length,
  ℕ, nat_eq, nat_eq_iff,
}
use mathlib.Core.List.{◌++◌}
use quorum_kv.Strings.{split, trim_space}

-- A spec that is not made of the right number of parts, or a list that is not of three.
pub data SpecError : Type 0 where
  bad_spec : String → SpecError
  bad_count : ℕ → SpecError

module _ {A : Type 0} (build : List String → Option A) (sep : ℕ) where
  -- the loop over the parts
  unfoldable pub parse_parts : List String → List A → Try SpecError (List A)
  unfolding split trim_space
  parse_parts [] acc = ok acc
  parse_parts (p ∷ ps) acc =
      let part = trim_space p in
      let skip = parse_parts ps acc in
      if part == "" then skip else elim (build (split part sep)) [
        | none ↦ err (bad_spec part)
        | some a ↦ parse_parts ps (acc ++ a ∷ [])
      ]

  abbrev three : Try SpecError (List A) → Try SpecError (List A)
  three (err e) = err e
  three (ok parsed) =
      if nat_eq (length parsed) 3 then ok parsed else err (bad_count (length parsed))

  unfoldable pub parse_specs : String → Try SpecError (List A)
  unfolding parse_parts
  parse_specs s = three (parse_parts (split s b',') [])

module _ {A : Type 0} (build : List String → Option A) (sep : ℕ) where
  length-three : (x : Try SpecError (List A)) (l : List A) → three build sep x ≡ ok l → length l ≡ 3
  length-three (err e) l h = absurd cc
  length-three (ok parsed) l h = ground (arith, h, nat_eq_iff (length parsed) 3)

  -- A list that is read has three elements.
  pub length-parse_specs : (s : String) (l : List A) → parse_specs build sep s ≡ ok l → length l ≡ 3
  unfolding parse_specs
  length-parse_specs s l h = length-three (parse_parts build sep (split s b',') []) l h
