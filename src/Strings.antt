-- ===== src/Strings.antt =====
-- Go's package strings, as far as the source uses it, on texts.
pub mod Laws
use quorum_kv.Prelude.{
  String, Bool, true, false, ◌&&◌, ◌||◌, Option, none, some, List, [], ◌∷◌, ◌==◌, if◌then◌else◌, ℕ,
  leb, nat_eq,
}
use Prim.Native.Char.{Char, code}

-- What follows the prefix, if the text has it.
unfoldable pub after_prefix : String → String → Option String
after_prefix s String.[] = some s
after_prefix String.[] (String.◌∷◌ p ps) = none
after_prefix (String.◌∷◌ c s) (String.◌∷◌ p ps) =
    if nat_eq (code c) (code p) then after_prefix s ps else none

unfoldable pub has_prefix : String → String → Bool
unfolding after_prefix
has_prefix s p = elim (after_prefix s p) [ none ↦ false | some r ↦ true ]

-- strings.TrimPrefix
unfoldable pub trim_prefix : String → String → String
unfolding after_prefix
trim_prefix s p = elim (after_prefix s p) [ none ↦ s | some r ↦ r ]

abbrev put_before : Char → Option String → Option String
put_before c none = none
put_before c (some s) = some (String.◌∷◌ c s)

-- strings.CutSuffix: what stands before the suffix, if the text ends in it
unfoldable pub cut_suffix : String → String → Option String
cut_suffix String.[] suf = if String.[] == suf then some String.[] else none
cut_suffix (String.◌∷◌ c s) suf =
    let rest = put_before c (cut_suffix s suf) in
    if String.◌∷◌ c s == suf then some String.[] else rest

-- strings.Contains, of a text of one character
unfoldable pub contains : String → ℕ → Bool
contains String.[] c = false
contains (String.◌∷◌ d s) c = nat_eq (code d) c || contains s c

abbrev pub grow_first : Char → List String → List String
grow_first c [] = String.◌∷◌ c String.[] ∷ []
grow_first c (w ∷ ws) = String.◌∷◌ c w ∷ ws

-- strings.Split, at a separator of one character
unfoldable pub split : String → ℕ → List String
split String.[] sep = String.[] ∷ []
split (String.◌∷◌ c s) sep =
    let rest = split s sep in if nat_eq (code c) sep then String.[] ∷ rest else grow_first c rest

-- unicode.IsSpace
unfoldable pub is_space : ℕ → Bool
is_space c =
    leb 9 c && leb c 13
    || nat_eq c 32
    || nat_eq c 0x85
    || nat_eq c 0xa0
    || nat_eq c 0x1680
    || leb 0x2000 c && leb c 0x200a
    || nat_eq c 0x2028
    || nat_eq c 0x2029
    || nat_eq c 0x202f
    || nat_eq c 0x205f
    || nat_eq c 0x3000

unfoldable pub trim_left : String → String
unfolding is_space
trim_left String.[] = String.[]
trim_left (String.◌∷◌ c s) =
    let rest = trim_left s in if is_space (code c) then rest else String.◌∷◌ c s

unfoldable pub trim_right : String → String
unfolding is_space
trim_right String.[] = String.[]
trim_right (String.◌∷◌ c s) =
    let rest = trim_right s in
    if is_space (code c) && rest == "" then String.[] else String.◌∷◌ c rest

-- strings.TrimSpace
unfoldable pub trim_space : String → String
unfolding trim_left trim_right
trim_space s = trim_right (trim_left s)
