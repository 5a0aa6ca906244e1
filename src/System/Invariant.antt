-- ===== src/System/Invariant.antt =====
-- What holds of the system at every time.
use quorum_kv.Prelude.{◌≡◌, ap, ◌∙◌, Option, none, some, map, ◌++◌, All, ℕ, ◌≤◌, ◌<◌}
use mathlib.Core.List.{Perm}
use quorum_kv.Prelude.Int.{pos, max_int64}
use quorum_kv.Json.{JsonText, Bytes}
use quorum_kv.Kv.Command.{Result, encode}
use quorum_kv.Kv.Spec.{kind_of}
use quorum_kv.Kv.Fsm.{new_fsm, returned}
use quorum_kv.Kv.Fsm.Replay.{replay}
use quorum_kv.History.{Op, outcome_unknown}
use quorum_kv.Checker.Operations.{input_of}
use quorum_kv.Checker.Horizon.{InRange}
use quorum_kv.Checker.Record.{Committed, Truthful, Lost}
use quorum_kv.System.{System, Entry, Adrift, Call, command}
use quorum_kv.System.Lists.{Sorted, records_of}

abbrev pub committed : (c : Call) (t : ℕ) (d : Op) → input_of d ≡ input_of c.op → Committed
committed c t d h = record {
  op = d;
  kind = c.kind;
  known = ap (λ i. kind_of i.op) h ∙ c.known;
  time = pos t;
}

-- The record of a call that took effect at the time `t` with the result `r` is true.
pub record Told (c : Call) (t : ℕ) (r : Result) (d : Op) : Type 0 where
  pub input : input_of d ≡ input_of c.op
  pub truthful : Truthful (committed c t d input) r

abbrev pub ToldIf : Call → ℕ → Result → Option Op → Type 0
ToldIf c t r none = Unit
ToldIf c t r (some d) = Told c t r d

-- A call takes effect after it was made, and its record is true.
pub record Entered (now : ℕ) (e : Entry) : Type 0 where
  pub called : e.call.start ≤ e.time
  pub past : e.time ≤ now
  pub told : ToldIf e.call e.time e.result e.closing

-- A call that was given up has the record of an unknown outcome.
pub record Drifting (now : ℕ) (a : Adrift) : Type 0 where
  pub called : a.call.start ≤ now
  pub input : input_of a.done ≡ input_of a.call.op
  pub start_ns : a.done.start_ns ≡ pos a.call.start
  pub outcome : a.done.outcome ≡ outcome_unknown

abbrev pub Waited : ℕ → Call → Type 0
Waited now c = c.start ≤ now

abbrev pub bytes_of : JsonText → Entry → Bytes
bytes_of text e = encode text (command e.call)

abbrev pub result_of : Entry → Result
result_of e = e.result

abbrev pub time_of : Entry → ℕ
time_of e = e.time

abbrev pub done_of : Adrift → Op
done_of a = a.done

pub record Sound (text : JsonText) (s : System) : Type 0 where
  pub replayed :
      replay text new_fsm (map (bytes_of text) s.log) ≡ returned (s.fsm, map result_of s.log)
  pub sorted : Sorted (map time_of s.log)
  pub entered : All (Entered s.now) s.log
  pub waited : All (Waited s.now) s.waiting
  pub drifting : All (Drifting s.now) s.adrift
  pub failed : All Lost s.failed
  pub recorded : Perm (records_of s.log ++ (map done_of s.adrift ++ s.failed)) s.history
  pub in_range : All InRange s.history
  pub in_time : s.now < max_int64
