-- ===== src/Json/Postfix.antt =====
-- A spelling of documents that is read back by a stack machine. It stands in for JSON's own where a
-- statement is applied to a concrete input, and shows that the law of `JsonText` can hold.
use quorum_kv.Prelude.{
  String, ◌≡◌, refl, ap, ◌∙◌, Bool, true, false, List, [], ◌∷◌, arith, if◌then◌else◌, Try, ok, err,
  ℕ, zero, suc, ◌+◌, nat_eq,
}
use Prim.Native.Char.{Char, code}
use quorum_kv.Prelude.Int.{pos, negsuc}
use quorum_kv.Json.{
  Json, null, bool, num, frac, str, arr, obj, Items, nil, cons, Fields, end, field, JsonText,
}

pub data Cell : Type 0 where
  doc : Json → Cell
  text : String → Cell
  items : Items → Cell
  fields : Fields → Cell

-- The stack, top first, and whether the next character is to be taken as it is.
pub record Machine : Type 0 where
  pub stack : List Cell
  pub quoting : Bool

abbrev over : List Cell → Machine
over s = record { stack = s; quoting = false }

abbrev quote : Char → List Cell → List Cell
quote c (text s ∷ st) = text (String.◌∷◌ c s) ∷ st
quote c st = []

abbrev make_str : List Cell → List Cell
make_str (text s ∷ st) = doc (str s) ∷ st
make_str st = []

abbrev make_frac : List Cell → List Cell
make_frac (text s ∷ st) = doc (frac s) ∷ st
make_frac st = []

abbrev grow : List Cell → List Cell
grow (doc (num (pos n)) ∷ st) = doc (num (pos (suc n))) ∷ st
grow (doc (num (negsuc n)) ∷ st) = doc (num (negsuc (suc n))) ∷ st
grow st = []

abbrev add_item : List Cell → List Cell
add_item (doc j ∷ items xs ∷ st) = items (cons j xs) ∷ st
add_item st = []

abbrev add_field : List Cell → List Cell
add_field (doc j ∷ text k ∷ fields fs ∷ st) = fields (field k j fs) ∷ st
add_field st = []

abbrev make_arr : List Cell → List Cell
make_arr (items xs ∷ st) = doc (arr xs) ∷ st
make_arr st = []

abbrev make_obj : List Cell → List Cell
make_obj (fields fs ∷ st) = doc (obj fs) ∷ st
make_obj st = []

tag : ℕ → List Cell → Machine
tag c st =
    if nat_eq c b'c'
    then record { stack = st; quoting = true }
    else over (
        if nat_eq c b'n'
        then doc null ∷ st
        else if nat_eq c b't'
        then doc (bool true) ∷ st
        else if nat_eq c b'f'
        then doc (bool false) ∷ st
        else if nat_eq c b'z'
        then doc (num (pos 0)) ∷ st
        else if nat_eq c b'm'
        then doc (num (negsuc 0)) ∷ st
        else if nat_eq c b'+'
        then grow st
        else if nat_eq c b'q'
        then text "" ∷ st
        else if nat_eq c b's'
        then make_str st
        else if nat_eq c b'r'
        then make_frac st
        else if nat_eq c b'['
        then items nil ∷ st
        else if nat_eq c b','
        then add_item st
        else if nat_eq c b'a'
        then make_arr st
        else if nat_eq c b'{'
        then fields end ∷ st
        else if nat_eq c b':'
        then add_field st
        else if nat_eq c b'o'
        then make_obj st
        else [])

read : Machine → Char → Machine
unfolding tag
read m c = elim m.quoting [ true ↦ over (quote c m.stack) | false ↦ tag (code c) m.stack ]

run : Machine → String → Machine
unfolding read
run m String.[] = m
run m (String.◌∷◌ c s) = run (read m c) s

-- `c` before a text.
infixr 67 ◌▸◌
abbrev ◌▸◌ : Char → String → String
c ▸ s = String.◌∷◌ c s

plus : ℕ → String → String
plus zero k = k
plus (suc n) k = "+" ▸ plus n k

spell_text : String → String → String
spell_text String.[] k = "q" ▸ k
spell_text (String.◌∷◌ c s) k = spell_text s ("c" ▸ c ▸ k)

mutual
  spell : Json → String → String
  spell null k = "n" ▸ k
  spell (bool true) k = "t" ▸ k
  spell (bool false) k = "f" ▸ k
  spell (num (pos n)) k = "z" ▸ plus n k
  spell (num (negsuc n)) k = "m" ▸ plus n k
  spell (frac s) k = spell_text s ("r" ▸ k)
  spell (str s) k = spell_text s ("s" ▸ k)
  spell (arr xs) k = spell_items xs ("a" ▸ k)
  spell (obj fs) k = spell_fields fs ("o" ▸ k)

  spell_items : Items → String → String
  spell_items nil k = "[" ▸ k
  spell_items (cons j xs) k = spell_items xs (spell j ("," ▸ k))

  spell_fields : Fields → String → String
  spell_fields end k = "{" ▸ k
  spell_fields (field n j fs) k = spell_fields fs (spell_text n (spell j (":" ▸ k)))

run-text :
    (s k : String) (st : List Cell) → run (over st) (spell_text s k) ≡ run (over (text s ∷ st)) k
unfolding run spell_text
run-text String.[] k st = refl
run-text (String.◌∷◌ c s) k st = run-text s ("c" ▸ c ▸ k) st

run-plus_pos :
    (n m : ℕ) (k : String) (st : List Cell)
    → run (over (doc (num (pos m)) ∷ st)) (plus n k) ≡ run (over (doc (num (pos (m + n))) ∷ st)) k
unfolding run plus
run-plus_pos zero m k st = ap (λ i. run (over (doc (num (pos i)) ∷ st)) k) (omega arith)
run-plus_pos (suc n) m k st =
    run-plus_pos n (suc m) k st ∙ ap (λ i. run (over (doc (num (pos i)) ∷ st)) k) (omega arith)

run-plus_negsuc :
    (n m : ℕ) (k : String) (st : List Cell)
    → run (over (doc (num (negsuc m)) ∷ st)) (plus n k)
      ≡ run (over (doc (num (negsuc (m + n))) ∷ st)) k
unfolding run plus
run-plus_negsuc zero m k st = ap (λ i. run (over (doc (num (negsuc i)) ∷ st)) k) (omega arith)
run-plus_negsuc (suc n) m k st =
    run-plus_negsuc n (suc m) k st
    ∙ ap (λ i. run (over (doc (num (negsuc i)) ∷ st)) k) (omega arith)

mutual
  unfolding run spell

  run-spell :
      (j : Json) (k : String) (st : List Cell)
      → run (over st) (spell j k) ≡ run (over (doc j ∷ st)) k
  run-spell null k st = refl
  run-spell (bool true) k st = refl
  run-spell (bool false) k st = refl
  run-spell (num (pos n)) k st =
      run-plus_pos n 0 k st ∙ ap (λ i. run (over (doc (num (pos i)) ∷ st)) k) (omega arith)
  run-spell (num (negsuc n)) k st =
      run-plus_negsuc n 0 k st ∙ ap (λ i. run (over (doc (num (negsuc i)) ∷ st)) k) (omega arith)
  run-spell (frac s) k st = run-text s ("r" ▸ k) st
  run-spell (str s) k st = run-text s ("s" ▸ k) st
  run-spell (arr xs) k st = run-spell_items xs ("a" ▸ k) st
  run-spell (obj fs) k st = run-spell_fields fs ("o" ▸ k) st

  run-spell_items :
      (xs : Items) (k : String) (st : List Cell)
      → run (over st) (spell_items xs k) ≡ run (over (items xs ∷ st)) k
  run-spell_items nil k st = refl
  run-spell_items (cons j xs) k st =
      run-spell_items xs (spell j ("," ▸ k)) st ∙ run-spell j ("," ▸ k) (items xs ∷ st)

  run-spell_fields :
      (fs : Fields) (k : String) (st : List Cell)
      → run (over st) (spell_fields fs k) ≡ run (over (fields fs ∷ st)) k
  run-spell_fields end k st = refl
  run-spell_fields (field n j fs) k st =
      run-spell_fields fs (spell_text n (spell j (":" ▸ k))) st
      ∙ run-text n (spell j (":" ▸ k)) (fields fs ∷ st)
      ∙ run-spell j (":" ▸ k) (text n ∷ fields fs ∷ st)

abbrev top : List Cell → Try String Json
top (doc j ∷ []) = ok j
top st = err "no document"

unfoldable pub parse : String → Try String Json
unfolding run
parse s = top (run (over []) s).stack

unfoldable pub print : Json → String
unfolding spell spell_text plus
print j = spell j ""

pub parse-print : (j : Json) → parse (print j) ≡ ok j
unfolding parse print
parse-print j = ap (λ (m : Machine). top m.stack) (run-spell j "" [])

abbrev pub postfix : JsonText
postfix = record {
  print = print;
  parse = parse;
  parse-print = parse-print;
  first = parse;
  first-print = parse-print;
  error_text = λ e. "json error";
}
