-- ===== src/Server/Node.antt =====
-- internal/server/node.go: peers, the configuration and the leader's URL.
pub mod Leader
use quorum_kv.Prelude.{
  String, Bool, ◌||◌, Option, none, some, List, [], ◌∷◌, ◌==◌, if◌then◌else◌, Try,
}
use quorum_kv.Specs.{SpecError, parse_specs}

pub record Peer : Type 0 where
  pub id : String
  pub raft_addr : String
  pub http_url : String

abbrev pub peer_of : List String → Option Peer
peer_of (a ∷ b ∷ c ∷ []) = some (record { id = a; raft_addr = b; http_url = c })
peer_of _ = none

-- ParsePeers
unfoldable pub parse_peers : String → Try SpecError (List Peer)
unfolding parse_specs
parse_peers = parse_specs peer_of b'@'

pub record Config : Type 0 where
  pub node_id : String
  pub data_dir : String
  pub raft_bind : String
  pub raft_advertise : String
  pub peers : List Peer
  pub bootstrap : Bool

-- the loop of LeaderHTTPURL
unfoldable pub url_of : List Peer → String → String
url_of [] id = ""
url_of (p ∷ ps) id = if p.id == id then p.http_url else url_of ps id

-- Node.LeaderHTTPURL, with the leader that Raft names
unfoldable pub leader_http_url : Config → String → String
unfolding url_of
leader_http_url cfg id = if id == "" || id == cfg.node_id then "" else url_of cfg.peers id
