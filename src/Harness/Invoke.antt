-- ===== src/Harness/Invoke.antt =====
-- internal/harness/client.go: Invoke with its retries, what a client remembers, and the random
-- workload.
pub mod Seen
pub mod Attempts
pub mod Ends
pub mod Records
pub mod Available
use quorum_kv.Prelude.{
  ◌%◌, String, Bool, true, false, ◌||◌, Option, none, some, List, [], ◌∷◌, ◌==◌, if◌then◌else◌,
  length, ℕ, zero, suc, ◌+◌,
}
use mathlib.Core.List.{◌++◌}
use quorum_kv.Prelude.Int.{ℤ}
use quorum_kv.GoMap.{Entries, insert}
use quorum_kv.History.{Op, outcome_ok, outcome_failed, outcome_unknown}
use quorum_kv.Harness.Nodes.{Node}
use quorum_kv.Harness.Client.{AttemptResult}

-- The state of a client that its operations change: what it has seen of each key (nil: absent), its
-- counter, and the history of its recorder.
pub record Client : Type 0 where
  pub id : ℤ
  pub nodes : List Node
  pub seq : ℕ
  pub last_seen : Entries (Option String)
  pub recorded : List Op

-- Recorder.add
unfoldable pub add : Client → Op → Client
add c op = record c { recorded = c.recorded ++ op ∷ [] }

abbrev saw : Client → String → Option String → Client
saw c key v = record c { last_seen = insert key v c.last_seen }

-- noteSeen
unfoldable pub note_seen : Client → Op → Client
unfolding insert
note_seen c op =
    if op.op == "put"
    then saw c op.key (some op.value)
    else if op.op == "cas"
    then (if op.ok
        then saw c op.key (some op.value)
        else if op.present
        then saw c op.key (some op.ret_val)
        else saw c op.key none)
    else if op.op == "delete"
    then saw c op.key none
    else if op.op == "get"
    then (if op.present then saw c op.key (some op.ret_val) else saw c op.key none)
    else c

-- One round of the loop as the world decides it: the clock at the call and at the response, what
-- doAttempt returned, and whether the deadline had passed when it had failed.
pub record Round : Type 0 where
  pub start_ns : ℤ
  pub end_ns : ℤ
  pub result : AttemptResult
  pub late : Bool

-- `c.Nodes[(start+attempt)%len(c.Nodes)]`; `none` is the panic on an empty list
unfoldable pub nth : List Node → ℕ → Option Node
nth [] i = none
nth (n ∷ ns) zero = some n
nth (n ∷ ns) (suc i) = nth ns i

unfoldable pub node_for : Client → Option Node → ℕ → ℕ → Option Node
unfolding nth
node_for c (some pin) start attempt = some pin
node_for c none start attempt = nth c.nodes ((start + attempt) % length c.nodes)

abbrev pub is_some {ℓ} : {A : Type ℓ} → Option A → Bool
is_some none = false
is_some (some a) = true

-- How a round ends: the operation is finished with its record, or another attempt follows.
pub data Turn : Type 0 where
  finished : Client → Op → Turn
  again : Op → Turn

-- The body of the loop, at the node of this attempt.
unfoldable pub turn : Client → Op → Option Node → Node → Round → Turn
unfolding note_seen add
turn c op pin node r =
    let sent : Op = record op { node = node.id; start_ns = r.start_ns; end_ns = r.end_ns } in
    if r.result.class == "ok"
    then (let done : Op = record sent {
      outcome = outcome_ok;
      ok = r.result.ok;
      present = r.result.present;
      ret_val = r.result.val;
    } in
        finished (add (note_seen c done) done) done)
    else if r.result.class == "unknown"
    then (let done : Op = record sent { outcome = outcome_unknown } in finished (add c done) done)
    else if r.result.class == "fail"
    then (if r.late || is_some pin
        then (let done : Op = record sent { outcome = outcome_failed } in
            finished (add c done) done)
        else again sent)
    else again sent

-- Invoke, with the node from which it starts and the rounds that the world has for it: the client
-- afterwards and the record that is returned. `none`: there was no node, or the rounds ran out first.
unfoldable pub invoke_from : Client → Op → Option Node → ℕ → ℕ → List Round → Option (Client × Op)
unfolding turn node_for
invoke_from c op pin start attempt [] = none
invoke_from c op pin start attempt (r ∷ rs) = elim (node_for c pin start attempt) [
  | none ↦ none
  | some node ↦ elim (turn c op pin node r) [
    | finished c' done ↦ some (c', done)
    | again op' ↦ invoke_from c op' pin start (attempt + 1) rs
  ]
]

unfoldable pub invoke : Client → Op → Option Node → ℕ → List Round → Option (Client × Op)
unfolding invoke_from
invoke c op pin start rounds = invoke_from c op pin start 0 rounds
