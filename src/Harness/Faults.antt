-- ===== src/Harness/Faults.antt =====
-- internal/harness/faults.go: the fault injector.
pub mod Undone
pub mod Healed
mod Tests
use quorum_kv.Prelude.{String, Option, none, some, List, [], ◌∷◌, ◌==◌, if◌then◌else◌}
use quorum_kv.Harness.Nodes.{Node}
use quorum_kv.Harness.Runner.{Env, Run, pure, outside, ◌>>=◌, ◌>>◌, add_event}
use Prim.Native.String.{◌++◌}
use mathlib.Core.List.{◌++◌ as ◌++ₗ◌}
use quorum_kv.Json.{Bytes, JsonError}
use quorum_kv.Json.Decode.{Slot, read_string, unmarshal}

-- what Isolate runs for one peer: packets from and to the other node are dropped in both containers
unfoldable pub drop_commands : Node → Node → List (List String)
drop_commands n peer =
    ("docker" ∷ "exec" ∷ n.container ∷ "iptables" ∷ "-I" ∷ "INPUT" ∷ "-s" ∷ peer.ip ∷ "-j" ∷ "DROP"
      ∷ [])
    ∷ ("docker" ∷ "exec" ∷ n.container ∷ "iptables" ∷ "-I" ∷ "OUTPUT" ∷ "-d" ∷ peer.ip ∷ "-j"
        ∷ "DROP" ∷ [])
    ∷ ("docker" ∷ "exec" ∷ peer.container ∷ "iptables" ∷ "-I" ∷ "INPUT" ∷ "-s" ∷ n.ip ∷ "-j"
        ∷ "DROP" ∷ [])
    ∷ ("docker" ∷ "exec" ∷ peer.container ∷ "iptables" ∷ "-I" ∷ "OUTPUT" ∷ "-d" ∷ n.ip ∷ "-j"
        ∷ "DROP" ∷ [])
    ∷ []

-- the commands of Isolate's two loops
unfoldable pub isolate_commands : List Node → Node → List (List String)
unfolding drop_commands
isolate_commands [] n = []
isolate_commands (peer ∷ peers) n =
    let rest = isolate_commands peers n in
    if peer.id == n.id then rest else drop_commands n peer ++ₗ rest

-- the commands of HealAll
unfoldable pub heal_commands : List Node → List (List String)
heal_commands [] = []
heal_commands (n ∷ ns) =
    ("docker" ∷ "start" ∷ n.container ∷ [])
    ∷ ("docker" ∷ "exec" ∷ n.container ∷ "iptables" ∷ "-F" ∷ "INPUT" ∷ [])
    ∷ ("docker" ∷ "exec" ∷ n.container ∷ "iptables" ∷ "-F" ∷ "OUTPUT" ∷ [])
    ∷ heal_commands ns

-- NodeByID
unfoldable pub node_by_id : List Node → String → Option Node
node_by_id [] id = none
node_by_id (n ∷ ns) id = if n.id == id then some n else node_by_id ns id

-- the anonymous struct that LeaderID reads
pub record Health : Type 0 where
  pub leader_id : String

abbrev pub health_slots : List (Slot Health)
health_slots =
    record {
      name = "leader_id";
      fill = λ j h. let (s, fits) = read_string j h.leader_id in (record h { leader_id = s }, fits);
    }
    ∷ []

-- the leader that a body of /healthz names; empty if it cannot be read
abbrev named_leader : Health × Option JsonError → String
named_leader (h, none) = h.leader_id
named_leader (h, some x) = ""

module _ {W : Type 0} (e : Env W) where
  -- Faults.record
  unfoldable pub record_event : String → String → String → Run W (Unit {0})
  record_event action target detail = do
    now ← outside (λ w. (e.clock w, w))
    add_event (record { at = now; action = action; target = target; detail = detail })

  -- run
  unfoldable pub exec : List String → Run W (String × Option String)
  exec argv = outside (e.exec argv)

  -- Each command in turn; the first error stays.
  unfoldable pub exec_all : List (List String) → Option String → Run W (Option String)
  unfolding exec
  exec_all [] first = pure first
  exec_all (argv ∷ rest) first = do
    (out, failed) ← exec argv
    exec_all rest (elim first [ some x ↦ some x | none ↦ failed ])

  unfoldable pub kill : Node → Run W (Option String)
  unfolding record_event exec
  kill n = do
    (out, failed) ← exec ("docker" ∷ "kill" ∷ "-s" ∷ "KILL" ∷ n.container ∷ [])
    record_event "kill" n.id out
    pure failed

  unfoldable pub start : Node → Run W (Option String)
  unfolding record_event exec
  start n = do
    (out, failed) ← exec ("docker" ∷ "start" ∷ n.container ∷ [])
    record_event "start" n.id out
    pure failed

  unfoldable pub isolate : List Node → Node → Run W (Option String)
  unfolding record_event exec_all isolate_commands
  isolate nodes n = do
    failed ← exec_all (isolate_commands nodes n) none
    record_event "partition" n.id "isolated from peers (iptables DROP both directions)"
    pure failed

  unfoldable pub heal_all : List Node → Run W (Unit {0})
  unfolding record_event exec_all heal_commands
  heal_all nodes = do
    _ ← exec_all (heal_commands nodes) none
    record_event "heal" "all" "iptables flushed, all containers started"

  abbrev pub leader_of : Option Bytes → String
  leader_of none = ""
  leader_of (some body) =
      named_leader (unmarshal e.text health_slots body (record { leader_id = "" }))

  -- LeaderID
  unfoldable pub leader_id : List Node → Run W String
  unfolding unmarshal
  leader_id [] = pure ""
  leader_id (n ∷ ns) = do
    body ← outside (e.http_get (n.url ++ "/healthz"))
    if leader_of body == "" then leader_id ns else pure (leader_of body)
