-- ===== src/Checker/Model.antt =====
-- internal/checker/checker.go: the model of one key, `Model`.
use quorum_kv.Prelude.{
  String, Bool, true, false, ◌&&◌, ◌||◌, not, Option, none, some, List, [], ◌∷◌, map, ◌==◌,
  if◌then◌else◌, ◌++◌,
}
use quorum_kv.Prelude.Int.{ℤ}
use quorum_kv.GoMap.{Entries, lookup, insert}

pub record KvInput : Type 0 where
  pub op : String
  pub key : String
  pub val : String
  pub expect : Option String

pub record KvOutput : Type 0 where
  pub unknown : Bool
  pub ok : Bool
  pub present : Bool
  pub val : String

pub record KvState : Type 0 where
  pub present : Bool
  pub val : String

unfoldable pub state_matches : KvState → Option String → Bool
state_matches st none = not st.present
state_matches st (some e) = st.present && st.val == e

abbrev pub bool_eq : Bool → Bool → Bool
bool_eq true true = true
bool_eq true false = false
bool_eq false true = false
bool_eq false false = true

-- Model.Init
abbrev pub init : KvState
init = record { present = false; val = "" }

-- Model.Step
unfoldable pub step : KvState → KvInput → KvOutput → Bool × KvState
unfolding state_matches
step st in_ out =
    if in_.op == "put"
    then (true, record { present = true; val = in_.val })
    else if in_.op == "delete"
    then (true, init)
    else if in_.op == "get"
    then (bool_eq out.present st.present && (not st.present || out.val == st.val), st)
    else if in_.op == "cas"
    then (let matches = state_matches st in_.expect in
        if out.unknown
        then (if matches then (true, record { present = true; val = in_.val }) else (true, st))
        else if out.ok
        then (matches, record { present = true; val = in_.val })
        else (not matches, st))
    else (false, st)

-- porcupine.Operation, as the source fills it
pub record Operation : Type 0 where
  pub client_id : ℤ
  pub input : KvInput
  pub output : KvOutput
  pub call : ℤ
  pub return : ℤ

abbrev pub or_empty {ℓ} : {A : Type ℓ} → Option (List A) → List A
or_empty none = []
or_empty (some l) = l

-- `byKey[k] = append(byKey[k], op)`
unfoldable pub by_key : Entries (List Operation) → List Operation → Entries (List Operation)
unfolding lookup insert
by_key m [] = m
by_key m (o ∷ os) = by_key (insert o.input.key (or_empty (lookup o.input.key m) ++ o ∷ []) m) os

-- Model.Partition: the parts in the order in which a `range` meets their keys
unfoldable pub partition : List Operation → List (List Operation)
unfolding by_key
partition ops = map (λ e. e.1) (by_key [] ops)
