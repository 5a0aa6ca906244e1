-- ===== src/Checker/Operations.antt =====
-- internal/checker/checker.go: ToOperations.
use quorum_kv.Prelude.{true, false, Option, none, some, List, [], ◌∷◌, ◌==◌, if◌then◌else◌}
use mathlib.Core.List.{filter_map}
use quorum_kv.Prelude.Int.{ℤ, pos, ltb_ℤ, succ_int64}
use quorum_kv.History.{Op, outcome_ok, outcome_failed, outcome_unknown}
use quorum_kv.Checker.Model.{KvInput, Operation}

unfoldable pub larger : ℤ → ℤ → ℤ
larger a b = if ltb_ℤ a b then b else a

-- the first loop, from the value of `maxEnd` so far
unfoldable pub max_end : ℤ → List Op → ℤ
max_end m [] = m
max_end m (o ∷ os) = max_end (larger (larger m o.end_ns) o.start_ns) os

unfoldable pub horizon : List Op → ℤ
unfolding max_end larger succ_int64
horizon ops = succ_int64 (max_end (pos 0) ops)

abbrev pub input_of : Op → KvInput
input_of o = record { op = o.op; key = o.key; val = o.value; expect = o.expect }

-- an operation that may or may not have taken effect
abbrev pub open_ended : ℤ → Op → Operation
open_ended h o = record {
  client_id = o.client;
  input = input_of o;
  output = record { unknown = true; ok = false; present = false; val = "" };
  call = o.start_ns;
  return = h;
}

abbrev pub answered : Op → Operation
answered o = record {
  client_id = o.client;
  input = input_of o;
  output = record { unknown = false; ok = o.ok; present = o.present; val = o.ret_val };
  call = o.start_ns;
  return = o.end_ns;
}

-- The switch of the second loop: what is appended for a record, or nothing.
unfoldable pub to_operation : ℤ → Op → Option Operation
to_operation h o =
    if o.outcome == outcome_failed
    then none
    else if o.outcome == outcome_unknown
    then (if o.op == "get" then none else some (open_ended h o))
    else if o.outcome == outcome_ok
    then some (answered o)
    else some (open_ended h o)

-- ToOperations
unfoldable pub to_operations : List Op → List Operation
unfolding to_operation horizon filter_map
to_operations ops = filter_map (to_operation (horizon ops)) ops
