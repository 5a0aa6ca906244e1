-- ===== src/System.antt =====
-- The deployed system as a step relation: clients that call Invoke (internal/harness/client.go), the
-- replicated state machine (internal/kv/fsm.go) behind the handlers (internal/server/http.go), and
-- the recorder that the clients share (internal/history/history.go).
pub mod Places
pub mod Lists
pub mod Shuffles
pub mod Asked
pub mod Invariant
pub mod Records
pub mod Steady
pub mod Kept
pub mod Accepted
pub mod Served
mod Tests
mod ServedTests
use quorum_kv.Prelude.{
  All, true, String, ◌≡◌, Option, none, some, List, [], ◌∷◌, ◌++◌, ℕ, ◌+◌, ◌<◌, Try, ok,
}
use quorum_kv.Prelude.Int.{pos, ◌≤ℤ◌, max_int64}
use Prim.Native.Nat.{◌^◌}
use Prim.Native.String.{slice}
use quorum_kv.Json.{JsonText}
use quorum_kv.Kv.Command.{Command, Result, encode}
use quorum_kv.Kv.Spec.{Kind, kind_of}
use quorum_kv.Kv.Fsm.{Fsm, new_fsm, returned, apply}
use quorum_kv.History.{Op}
use quorum_kv.Server.Http.{write_json, result_json}
use quorum_kv.Contract.Wire.{asked}
use quorum_kv.Harness.Nodes.{Node}
use quorum_kv.Harness.Client.{answered, classify}
use quorum_kv.Harness.Invoke.{Client, Round, Turn, finished, again, turn, is_some}
use quorum_kv.System.Places.{Removes, Replaces}

-- One attempt of a call of Invoke: the client, its operation, of a kind that the store knows, the node
-- that it asks, and the clock when it asked.
pub record Call : Type 0 where
  pub client : Client
  pub op : Op
  pub pin : Option Node
  pub node : Node
  pub kind : Kind
  pub known : kind_of op.op ≡ some kind
  pub start : ℕ

-- The command that the handler proposes for it (Contract/Wire).
abbrev pub command : Call → Command
command c = asked c.kind c.op

-- A call that its client has given up, with the record, and whose proposal may still be committed.
pub record Adrift : Type 0 where
  pub call : Call
  pub done : Op

-- An entry of the log that is applied: its call, when and with what result, and the record of the
-- call once it has ended.
pub record Entry : Type 0 where
  pub call : Call
  pub time : ℕ
  pub result : Result
  pub closing : Option Op

-- The clock, the state machine, the calls that wait with a proposal that is not committed, those given
-- up, the applied log in its order, the records of definite failures, and the recorder.
pub record System : Type 0 where
  pub now : ℕ
  pub fsm : Fsm
  pub waiting : List Call
  pub adrift : List Adrift
  pub log : List Entry
  pub failed : List Op
  pub history : List Op

abbrev pub init : System
init = record {
  now = 0;
  fsm = new_fsm;
  waiting = [];
  adrift = [];
  log = [];
  failed = [];
  history = [];
}

-- The end of an attempt, by the body of Invoke's loop, on the shared recorder. The client may have read
-- the clock for it some time before it records.
pub record Attempted (s : System) (call : Call) (round : Round) (t : Turn) : Type 0 where
  pub began : round.start_ns ≡ pos call.start
  pub ended : round.end_ns ≤ℤ pos s.now
  pub turned :
      turn (record call.client { recorded = s.history }) call.op call.pin call.node round ≡ t

-- The attempt's exchange is the handler's response to this result, within the client's limit, which
-- the client got after the time `t`.
pub record Answered (text : JsonText) (t : ℕ) (r : Result) (round : Round) : Type 0 where
  pub later : pos t ≤ℤ round.end_ns
  pub whole : slice (text.print (result_json r)) 0 (2 ^ 20) ≡ text.print (result_json r)
  pub result :
      round.result ≡ classify text (answered 200 (ok (write_json text 200 (result_json r)).body))

abbrev pub applied : System → Call → Result → Option Op → List Entry
applied s call r closing =
    s.log ++ record { call = call; time = s.now; result = r; closing = closing } ∷ []

abbrev pub closed : Entry → Op → Entry
closed e done = record e { closing = some done }

-- tick: the clock advances. send: a client sends an attempt. commit, commit_adrift: Raft commits a
-- proposal, whether or not its client still waits, and the state machine applies it. answer: the
-- response of an applied call reaches its client, which records it. lose_answer, give_up: a client
-- records an unknown outcome, of a call that is applied or is not. fail: a client records a
-- definite failure. retry: an attempt has failed definitely and another is to follow, which is sent
-- when its client gets to it.
pub data Step (text : JsonText) (s : System) : System → Type 0 where
  tick : (d : ℕ) → s.now + d < max_int64 → Step text s (record s { now = s.now + d })
  send : (call : Call) → call.start ≡ s.now → Step text s (record s { waiting = call ∷ s.waiting })
  commit :
      (call : Call) (rest : List Call) (fsm : Fsm) (r : Result)
      → Removes call s.waiting rest
      → apply text s.fsm (encode text (command call)) ≡ returned (fsm, r)
      → Step text s (record s { fsm = fsm; waiting = rest; log = applied s call r none })
  commit_adrift :
      (a : Adrift) (rest : List Adrift) (fsm : Fsm) (r : Result)
      → Removes a s.adrift rest
      → apply text s.fsm (encode text (command a.call)) ≡ returned (fsm, r)
      → Step text s (record s { fsm = fsm; adrift = rest; log = applied s a.call r (some a.done) })
  answer :
      (e : Entry) (log : List Entry) (round : Round) (c : Client) (done : Op)
      → e.closing ≡ none
      → Replaces e (closed e done) s.log log
      → Answered text e.time e.result round
      → Attempted s e.call round (finished c done)
      → Step text s (record s { log = log; history = c.recorded })
  lose_answer :
      (e : Entry) (log : List Entry) (round : Round) (c : Client) (done : Op)
      → e.closing ≡ none
      → Replaces e (closed e done) s.log log
      → round.result.class ≡ "unknown"
      → Attempted s e.call round (finished c done)
      → Step text s (record s { log = log; history = c.recorded })
  give_up :
      (call : Call) (rest : List Call) (round : Round) (c : Client) (done : Op)
      → Removes call s.waiting rest
      → round.result.class ≡ "unknown"
      → Attempted s call round (finished c done)
      → Step text s (record s {
        waiting = rest;
        adrift = record { call = call; done = done } ∷ s.adrift;
        history = c.recorded;
      })
  fail :
      (call : Call) (rest : List Call) (round : Round) (c : Client) (done : Op)
      → Removes call s.waiting rest
      → round.result.class ≡ "fail"
      → Attempted s call round (finished c done)
      → Step text s (record s { waiting = rest; failed = done ∷ s.failed; history = c.recorded })
  retry :
      (call : Call) (rest : List Call) (round : Round) (op : Op)
      → Removes call s.waiting rest
      → round.result.class ≡ "fail"
      → Attempted s call round (again op)
      → Step text s (record s { waiting = rest })

pub data Reach (text : JsonText) : System → Type 0 where
  start : Reach text init
  later : {s t : System} → Reach text s → Step text s t → Reach text t

abbrev pub IsClosed : Entry → Type 0
IsClosed e = is_some e.closing ≡ true

-- No attempt waits, and each call in the log has its record, those whose answer was lost too.
pub record IsQuiet (s : System) : Type 0 where
  pub none_waiting : s.waiting ≡ []
  pub all_closed : All IsClosed s.log
