-- ===== src/History/Line.antt =====
-- internal/history/history.go: a record as one line of a history file.
use quorum_kv.Prelude.{
  String, ◌≡◌, refl, ◌∙◌, true, false, Option, none, some, List, [], ◌∷◌, eq_iff, arith,
}
use quorum_kv.Prelude.Int.{ℤ, pos, negsuc, InInt64}
use quorum_kv.Json.{Json, num, bool, str, obj, Fields, end, field}
use quorum_kv.Json.Decode.{
  Slot, read_string, read_bool, read_int64, read_string_pointer, fill_struct, fill_fields,
}
use quorum_kv.Kv.Command.{omit_empty}
use quorum_kv.History.{Op}

-- `omitempty` of a pointer: the field is left out if it is nil.
abbrev pub omit_nil : String → Option String → Fields → Fields
omit_nil name none rest = rest
omit_nil name (some s) rest = field name (str s) rest

-- The fields of an Op from `outcome` on, from `start_ns` on, and from `expect` on.
abbrev from_outcome : Op → Fields
from_outcome o = field "outcome" (str o.outcome) (
    field "ok" (bool o.ok) (
      field "present" (bool o.present)
        (omit_empty "ret_val" o.ret_val (omit_empty "node" o.node end))))

abbrev from_start : Op → Fields
from_start o = field "start_ns" (num o.start_ns) (field "end_ns" (num o.end_ns) (from_outcome o))

abbrev from_op : Op → Fields
from_op o = field "op" (str o.op) (
    field "key" (str o.key)
      (omit_empty "value" o.value (omit_nil "expect" o.expect (from_start o))))

-- What Marshal writes for an Op.
abbrev pub op_json : Op → Json
op_json o = obj (field "client" (num o.client) (from_op o))

abbrev pub zero_op : Op
zero_op = record {
  client = pos 0;
  op = "";
  key = "";
  value = "";
  expect = none;
  start_ns = pos 0;
  end_ns = pos 0;
  outcome = "";
  ok = false;
  present = false;
  ret_val = "";
  node = "";
}

abbrev pub op_slots : List (Slot Op)
op_slots =
    record {
      name = "client";
      fill = λ j o. let (v, fits) = read_int64 j o.client in (record o { client = v }, fits);
    }
    ∷ record {
      name = "op";
      fill = λ j o. let (v, fits) = read_string j o.op in (record o { op = v }, fits);
    }
    ∷ record {
      name = "key";
      fill = λ j o. let (v, fits) = read_string j o.key in (record o { key = v }, fits);
    }
    ∷ record {
      name = "value";
      fill = λ j o. let (v, fits) = read_string j o.value in (record o { value = v }, fits);
    }
    ∷ record {
      name = "expect";
      fill =
          λ j o. let (v, fits) = read_string_pointer j o.expect in (record o { expect = v }, fits);
    }
    ∷ record {
      name = "start_ns";
      fill = λ j o. let (v, fits) = read_int64 j o.start_ns in (record o { start_ns = v }, fits);
    }
    ∷ record {
      name = "end_ns";
      fill = λ j o. let (v, fits) = read_int64 j o.end_ns in (record o { end_ns = v }, fits);
    }
    ∷ record {
      name = "outcome";
      fill = λ j o. let (v, fits) = read_string j o.outcome in (record o { outcome = v }, fits);
    }
    ∷ record {
      name = "ok";
      fill = λ j o. let (v, fits) = read_bool j o.ok in (record o { ok = v }, fits);
    }
    ∷ record {
      name = "present";
      fill = λ j o. let (v, fits) = read_bool j o.present in (record o { present = v }, fits);
    }
    ∷ record {
      name = "ret_val";
      fill = λ j o. let (v, fits) = read_string j o.ret_val in (record o { ret_val = v }, fits);
    }
    ∷ record {
      name = "node";
      fill = λ j o. let (v, fits) = read_string j o.node in (record o { node = v }, fits);
    }
    ∷ []

-- The numbers of a record are int64.
pub record IsInt64 (o : Op) : Type 0 where
  pub client : InInt64 o.client
  pub start_ns : InInt64 o.start_ns
  pub end_ns : InInt64 o.end_ns

read_int64-num : (z old : ℤ) → InInt64 z → read_int64 (num z) old ≡ (z, true)
read_int64-num (pos n) old h = ground arith
read_int64-num (negsuc n) old h = ground arith

fill_value :
    (o : Op) (rest : Fields)
    → fill_fields op_slots (omit_empty "value" o.value rest) (record o { value = "" }, none)
      ≡ fill_fields op_slots rest (o, none)
unfolding fill_fields
fill_value o rest = ground (arith, eq_iff o.value "")

fill_ret_val :
    (o : Op) (rest : Fields)
    → fill_fields op_slots (omit_empty "ret_val" o.ret_val rest) (record o { ret_val = "" }, none)
      ≡ fill_fields op_slots rest (o, none)
unfolding fill_fields
fill_ret_val o rest = ground (arith, eq_iff o.ret_val "")

fill_node :
    (o : Op) (rest : Fields)
    → fill_fields op_slots (omit_empty "node" o.node rest) (record o { node = "" }, none)
      ≡ fill_fields op_slots rest (o, none)
unfolding fill_fields
fill_node o rest = ground (arith, eq_iff o.node "")

fill_expect :
    (o : Op) (e : Option String) (rest : Fields)
    → fill_fields op_slots (omit_nil "expect" e rest) (record o { expect = none }, none)
      ≡ fill_fields op_slots rest (record o { expect = e }, none)
unfolding fill_fields
fill_expect o none rest = refl
fill_expect o (some e) rest = refl

fill_client :
    (o : Op) (rest : Fields)
    → InInt64 o.client
    → fill_fields op_slots (field "client" (num o.client) rest) (record o { client = pos 0 }, none)
      ≡ fill_fields op_slots rest (o, none)
unfolding fill_fields
fill_client o rest h = rw (read_int64-num o.client (pos 0) h)

fill_start_ns :
    (o : Op) (rest : Fields)
    → InInt64 o.start_ns
    → fill_fields op_slots
        (field "start_ns" (num o.start_ns) rest)
        (record o { start_ns = pos 0 }, none)
      ≡ fill_fields op_slots rest (o, none)
unfolding fill_fields
fill_start_ns o rest h = rw (read_int64-num o.start_ns (pos 0) h)

fill_end_ns :
    (o : Op) (rest : Fields)
    → InInt64 o.end_ns
    → fill_fields op_slots (field "end_ns" (num o.end_ns) rest) (record o { end_ns = pos 0 }, none)
      ≡ fill_fields op_slots rest (o, none)
unfolding fill_fields
fill_end_ns o rest h = rw (read_int64-num o.end_ns (pos 0) h)

-- A record of int64 numbers is read back from its document.
pub fill-op_json : (o : Op) → IsInt64 o → fill_struct op_slots (op_json o) zero_op ≡ (o, none)
unfolding fill_struct fill_fields
fill-op_json o h =
    let named : Op = record zero_op { client = o.client; op = o.op; key = o.key } in
    let asked : Op = record named { value = o.value; expect = o.expect } in
    let timed : Op = record asked { start_ns = o.start_ns; end_ns = o.end_ns } in
    let answered : Op = record timed { outcome = o.outcome; ok = o.ok; present = o.present } in
    fill_client (record zero_op { client = o.client }) (from_op o) h.client
    ∙ fill_value (record named { value = o.value }) (omit_nil "expect" o.expect (from_start o))
    ∙ fill_expect asked o.expect (from_start o)
    ∙ fill_start_ns (record asked { start_ns = o.start_ns })
        (field "end_ns" (num o.end_ns) (from_outcome o)) h.start_ns
    ∙ fill_end_ns timed (from_outcome o) h.end_ns
    ∙ fill_ret_val (record answered { ret_val = o.ret_val }) (omit_empty "node" o.node end)
    ∙ fill_node o end
