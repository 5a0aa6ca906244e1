-- ===== src/Server/Status.antt =====
-- internal/server/http.go: the handlers of /internal/state and /healthz.
use quorum_kv.Prelude.{String, Bool, ◌==◌}
use quorum_kv.Json.{Json, str, obj, end, field, JsonText}
use quorum_kv.Kv.Fsm.{Fsm, dump, map_json}
use quorum_kv.Server.Node.{Config}
use quorum_kv.Server.Http.{Response, write_json}

-- What Raft says of itself: State, the entries of Stats (a missing one is empty) and LeaderWithID.
pub record RaftStatus : Type 0 where
  pub state : String
  pub stats : String → String
  pub leader_addr : String
  pub leader_id : String

-- the map of the response, with its keys sorted
unfoldable pub state_json : Config → RaftStatus → Fsm → Json
unfolding dump map_json
state_json cfg r f = obj (
    field "commit_index" (str (r.stats "commit_index")) (
      field "data" (map_json (dump f)) (
        field "last_applied" (str (r.stats "applied_index")) (
          field "last_log_term" (str (r.stats "last_log_term"))
            (field "node" (str cfg.node_id) (field "state" (str r.state) end))))))

unfoldable pub handle_state : JsonText → Config → RaftStatus → Fsm → Response
unfolding state_json
handle_state text cfg r f = write_json text 200 (state_json cfg r f)

unfoldable pub handle_healthz : JsonText → Config → RaftStatus → Response
handle_healthz text cfg r = write_json text 200 (
    obj (
      field "leader_addr" (str r.leader_addr) (
        field "leader_id" (str r.leader_id)
          (field "node" (str cfg.node_id) (field "state" (str r.state) end)))))

-- Node.IsLeader
abbrev pub is_leader : RaftStatus → Bool
is_leader r = r.state == "Leader"
