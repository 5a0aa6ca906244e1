-- ===== src/Kv/Fsm.antt =====
-- internal/kv/fsm.go: the state machine, its snapshots and its recovery. A panic is an outcome.
pub mod Step
pub mod Replay
pub mod Recovery
pub mod Contention
pub mod Panics
use Prim.Native.String.{◌++◌}
use quorum_kv.Prelude.{
  String, Bool, true, false, ◌&&◌, not, Option, none, some, [], ◌∷◌, ◌==◌, if◌then◌else◌, Try, ok,
  err,
}
use quorum_kv.GoMap.{GoMap, Entries, nil_map, made, get, assign, delete, entries, copy_into, insert}
use quorum_kv.GoMap.Order.{sort_keys}
use quorum_kv.Json.{
  Json, null, str, obj, Fields, end, field, JsonError, syntax, mismatch, JsonText, Bytes,
}
use quorum_kv.Kv.Command.{Command, Result, op_put, op_get, op_delete, op_cas, decode_command}

pub record Fsm : Type 0 where
  pub contents : GoMap String  -- the field `data`

-- What a call does: it returns, or it panics with a message.
pub data Outcome {ℓ} (A : Type ℓ) : Type ℓ where
  returned : A → Outcome A
  panicked : String → Outcome A

-- NewFSM
abbrev pub new_fsm : Fsm
new_fsm = record { contents = made [] }

abbrev pub value_or_empty : Option String → String
value_or_empty none = ""
value_or_empty (some v) = v

abbrev pub is_present : Option String → Bool
is_present none = false
is_present (some v) = true

-- `f.data[k] = v` and the return of `r`
abbrev write : GoMap String → String → String → Result → Outcome (Fsm × Result)
write m k v r = elim (assign m k v) [
  | none ↦ panicked "assignment to entry in nil map"
  | some m' ↦ returned (record { contents = m' }, r)
]

-- `(cmd.Expect == nil && !present) || (cmd.Expect != nil && present && cur == *cmd.Expect)`
abbrev pub expect_matches : Option String → Option String → Bool
expect_matches none found = not (is_present found)
expect_matches (some e) found = is_present found && value_or_empty found == e

-- The switch of Apply.
unfoldable pub execute : Command → Fsm → Outcome (Fsm × Result)
unfolding get assign delete
execute cmd f =
    let found = get f.contents cmd.key in
    if cmd.op == op_put
    then write f.contents cmd.key cmd.value (record { ok = true; present = false; value = "" })
    else if cmd.op == op_get
    then returned
        (f, record { ok = true; present = is_present found; value = value_or_empty found })
    else if cmd.op == op_delete
    then returned (
      record { contents = delete f.contents cmd.key },
      record { ok = true; present = is_present found; value = "" },
    )
    else if cmd.op == op_cas
    then (if expect_matches cmd.expect found
        then write f.contents cmd.key cmd.value (record { ok = true; present = false; value = "" })
        else returned
            (f, record { ok = false; present = is_present found; value = value_or_empty found }))
    else panicked ("fsm: unknown op " ++ cmd.op)

abbrev apply_decoded : JsonText → Command × Option JsonError → Fsm → Outcome (Fsm × Result)
apply_decoded text (cmd, some e) f = panicked ("fsm: undecodable log entry: " ++ text.error_text e)
apply_decoded text (cmd, none) f = execute cmd f

-- FSM.Apply, of the data of a log entry
unfoldable pub apply : JsonText → Fsm → Bytes → Outcome (Fsm × Result)
unfolding decode_command execute
apply text f b = apply_decoded text (decode_command text b) f

-- FSM.Dump
unfoldable pub dump : Fsm → GoMap String
unfolding copy_into
dump f = made (copy_into [] (entries f.contents))

-- What Marshal writes for a map: its entries sorted by key; null for a nil map.
abbrev fields_of : Entries String → Fields
fields_of [] = end
fields_of ((k, v) ∷ l) = field k (str v) (fields_of l)

unfoldable pub map_json : GoMap String → Json
unfolding sort_keys
map_json nil_map = null
map_json (made l) = obj (fields_of (sort_keys l))

-- FSM.Snapshot: the snapshot holds a copy
pub record FsmSnapshot : Type 0 where
  pub state : GoMap String

unfoldable pub snapshot : Fsm → FsmSnapshot
unfolding dump
snapshot f = record { state = dump f }

-- fsmSnapshot.Persist, up to the writes to the sink: the bytes that it encodes
unfoldable pub persist : JsonText → FsmSnapshot → Bytes
unfolding map_json
persist text s = text.print (map_json s.state)

-- Decode of a document into a map: each field is assigned in order, null as the empty text, and a
-- value of another type is an error and is stored as the empty text.
abbrev first_error : Option JsonError → JsonError → Option JsonError
first_error (some e) e' = some e
first_error none e' = some e'

unfoldable pub fill_map :
    Fields → Entries String → Option JsonError → Entries String × Option JsonError
unfolding insert
fill_map end m e = (m, e)
fill_map (field k (str s) rest) m e = fill_map rest (insert k s m) e
fill_map (field k null rest) m e = fill_map rest (insert k "" m) e
fill_map (field k other rest) m e = fill_map rest (insert k "" m) (first_error e (mismatch ""))

abbrev made_with : Entries String × Option JsonError → GoMap String × Option JsonError
made_with (m, e) = (made m, e)

unfoldable pub decode_map : Json → GoMap String × Option JsonError
unfolding fill_map
decode_map null = (nil_map, none)
decode_map (obj fs) = made_with (fill_map fs [] none)
decode_map other = (nil_map, some (mismatch ""))

abbrev restore_decoded : Fsm → GoMap String × Option JsonError → Fsm × Option JsonError
restore_decoded f (m, some e) = (f, some e)
restore_decoded f (m, none) = (record { contents = m }, none)

abbrev restore_parsed : Fsm → Try String Json → Fsm × Option JsonError
restore_parsed f (err m) = (f, some (syntax m))
restore_parsed f (ok j) = restore_decoded f (decode_map j)

-- FSM.Restore, from the bytes of the snapshot stream
unfoldable pub restore : JsonText → Fsm → Bytes → Fsm × Option JsonError
unfolding decode_map
restore text f b = restore_parsed f (text.first b)
