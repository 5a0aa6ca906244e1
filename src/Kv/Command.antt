-- ===== src/Kv/Command.antt =====
-- internal/kv/command.go: the command that goes through the Raft log, its result, and their JSON.
use quorum_kv.Prelude.{
  String, ◌≡◌, Bool, Option, none, some, List, [], ◌∷◌, ◌==◌, eq_iff, arith, if◌then◌else◌,
}
use quorum_kv.Json.{Json, null, str, obj, Fields, end, field, JsonError, JsonText, Bytes}
use quorum_kv.Json.Decode.{Slot, read_string, read_string_pointer, unmarshal, fill_struct}

abbrev pub op_put : String
op_put = "put"

abbrev pub op_get : String
op_get = "get"

abbrev pub op_delete : String
op_delete = "delete"

abbrev pub op_cas : String
op_cas = "cas"

pub record Command : Type 0 where
  pub op : String
  pub key : String
  pub value : String
  pub expect : Option String

pub record Result : Type 0 where
  pub ok : Bool
  pub present : Bool
  pub value : String

-- A `*string`: nil is written as null.
abbrev pub string_pointer_json : Option String → Json
string_pointer_json none = null
string_pointer_json (some s) = str s

-- `omitempty`: the field is left out if the text is empty.
abbrev pub omit_empty : String → String → Fields → Fields
omit_empty name s rest = if s == "" then rest else field name (str s) rest

abbrev pub command_json : Command → Json
command_json c = obj (
    field "op" (str c.op) (
      field "key" (str c.key)
        (omit_empty "value" c.value (field "expect" (string_pointer_json c.expect) end))))

abbrev pub zero_command : Command
zero_command = record { op = ""; key = ""; value = ""; expect = none }

abbrev pub command_slots : List (Slot Command)
command_slots =
    record {
      name = "op";
      fill = λ j c. let (s, fits) = read_string j c.op in (record c { op = s }, fits);
    }
    ∷ record {
      name = "key";
      fill = λ j c. let (s, fits) = read_string j c.key in (record c { key = s }, fits);
    }
    ∷ record {
      name = "value";
      fill = λ j c. let (s, fits) = read_string j c.value in (record c { value = s }, fits);
    }
    ∷ record {
      name = "expect";
      fill =
          λ j c. let (s, fits) = read_string_pointer j c.expect in (record c { expect = s }, fits);
    }
    ∷ []

-- Command.Encode
unfoldable pub encode : JsonText → Command → Bytes
encode text c = text.print (command_json c)

-- DecodeCommand
unfoldable pub decode_command : JsonText → Bytes → Command × Option JsonError
unfolding unmarshal
decode_command text b = unmarshal text command_slots b zero_command

fill-command_json :
    (c : Command) → fill_struct command_slots (command_json c) zero_command ≡ (c, none)
unfolding fill_struct
fill-command_json c = ground (arith, eq_iff c.value "")

pub decode_command-encode :
    (text : JsonText) (c : Command) → decode_command text (encode text c) ≡ (c, none)
unfolding decode_command encode
decode_command-encode text c = rw (text.parse-print (command_json c)) (fill-command_json c)
