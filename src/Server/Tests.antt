-- ===== src/Server/Tests.antt =====
-- The leader's URL at a concrete configuration.
use quorum_kv.Prelude.{String, ◌≡◌, ◌≢◌, ◌⊎◌, [], ◌∷◌, false}
use quorum_kv.Server.Node.{Config, leader_http_url}
use quorum_kv.Server.Node.Leader.{Listed, leader_http_url-Listed}

abbrev cluster : Config
cluster = record {
  node_id = "n1";
  data_dir = "/data";
  raft_bind = ":7000";
  raft_advertise = "n1:7000";
  peers =
      record { id = "n1"; raft_addr = "n1:7000"; http_url = "http://n1" }
      ∷ record { id = "n2"; raft_addr = "n2:7000"; http_url = "http://n2" }
      ∷ [];
  bootstrap = false;
}

leader_http_url-Listed_example :
    (leader_http_url cluster "n2" ≡ "")
    ⊎ ((◌≢◌ {A = String} "n2" cluster.node_id)
        × Listed cluster.peers "n2" (leader_http_url cluster "n2"))
leader_http_url-Listed_example = leader_http_url-Listed cluster "n2"
