-- ===== src/Harness/Run/NodeTests.antt =====
-- What the harness reads of a node, at concrete inputs.
use quorum_kv.Prelude.{String, ◌≡◌, refl, false, some, [], ◌∷◌}
use quorum_kv.Json.Postfix.{postfix, print, parse}
use quorum_kv.Kv.Fsm.{fill_map}
use quorum_kv.GoMap.{made, lookup}
use quorum_kv.Kv.Fsm.{Fsm}
use quorum_kv.Kv.Fsm.Step.{IsValid}
use quorum_kv.Server.Node.{Config}
use quorum_kv.Server.Status.{RaftStatus, handle_state, handle_healthz}
use quorum_kv.Harness.Phases.Convergence.{NodeState, compared}
use quorum_kv.Json.Decode.{unmarshal}
use quorum_kv.Contract.Status.{
  Replica, Agree, converged-Agree, Reads, leader_of-healthz, state_of-handle_state,
}
use quorum_kv.Harness.Faults.{leader_of}
use quorum_kv.Harness.Phases.Convergence.{state_of}
use quorum_kv.Harness.Run.World.{world}

abbrev config : Config
config = record {
  node_id = "n2";
  data_dir = "";
  raft_bind = "";
  raft_advertise = "";
  peers = [];
  bootstrap = false;
}

abbrev raft_status : RaftStatus
raft_status = record {
  state = "Follower";
  stats = λ s. "12";
  leader_addr = "10.0.0.1";
  leader_id = "n1";
}

abbrev two : Fsm
two = record { contents = made (("b", "2") ∷ ("a", "1") ∷ []) }

two-IsValid : IsValid two
unfolding lookup
two-IsValid = record { allocated = refl; unique = (refl, (refl, tt)) }

leader_of-healthz_example :
    leader_of world (some (handle_healthz postfix config raft_status).body) ≡ "n1"
leader_of-healthz_example = leader_of-healthz world config raft_status

state_of-handle_state_example :
    Reads world config raft_status two
      (state_of world (some (handle_state postfix config raft_status two).body))
state_of-handle_state_example = state_of-handle_state world config raft_status two two-IsValid

abbrev replica : String → Replica
replica id = record { config = record config { node_id = id }; status = raft_status; fsm = two }

-- what the convergence phase reads of such a node
abbrev read_state : String → NodeState
read_state id = record {
  node = id;
  last_applied = "12";
  contents = made (("a", "1") ∷ ("b", "2") ∷ []);
}

converged-Agree_example : Agree (replica "n1") (replica "n2") × Agree (replica "n2") (replica "n3")
unfolding handle_state unmarshal compared parse print fill_map
converged-Agree_example =
    converged-Agree world (replica "n1") (replica "n2") (replica "n3") (read_state "n1")
      (read_state "n2") (read_state "n3") "all 3 nodes identical: 2 keys at applied index 12"
      two-IsValid two-IsValid two-IsValid refl refl refl refl
