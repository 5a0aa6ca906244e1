-- ===== src/Server/Start.antt =====
-- internal/server/node.go: NewNode and its constants; cmd/server/main.go: env and main.
pub mod Started
pub mod Ends
pub mod Recovers
mod Tests
use quorum_kv.Prelude.{
  String, Bool, Option, none, some, List, [], ◌∷◌, map, ◌==◌, if◌then◌else◌, Try, ok, err, ℕ,
}
use Prim.Native.String.{◌++◌}
use quorum_kv.Fmt.{decimal}
use quorum_kv.Specs.{SpecError, bad_spec, bad_count}
use quorum_kv.Kv.Fsm.{Fsm, new_fsm}
use quorum_kv.Server.Node.{Peer, Config, parse_peers}

-- the timing constants, in milliseconds
abbrev pub heartbeat_timeout : ℕ
heartbeat_timeout = 1000

abbrev pub election_timeout : ℕ
election_timeout = 1000

abbrev pub leader_lease_timeout : ℕ
leader_lease_timeout = 500

abbrev pub commit_timeout : ℕ
commit_timeout = 50

abbrev pub apply_timeout : ℕ
apply_timeout = 5000

-- The fields of raft.Config that the source sets.
pub record RaftConfig : Type 0 where
  pub local_id : String
  pub heartbeat : ℕ
  pub election : ℕ
  pub leader_lease : ℕ
  pub commit : ℕ
  pub snapshot_interval : ℕ
  pub snapshot_threshold : ℕ

-- raft.Server
pub record RaftServer : Type 0 where
  pub id : String
  pub address : String

-- The error of BootstrapCluster: that there is a state already (ErrCantBootstrap), or any other.
pub data BootstrapError : Type 0 where
  cannot_bootstrap : BootstrapError
  other : String → BootstrapError

-- What hashicorp/raft, boltdb and the packages os, net and net/http do on a state `W` of the machine,
-- with the types of what they hand out, and the verb %q. A state machine is reached through a pointer,
-- and what it holds is in `W`: Raft, which is given the pointer, may restore a snapshot into it and apply
-- its log to it. What is served is the handler on a node of this handle, pointer and configuration. Times
-- are in milliseconds.
pub record Libraries (W : Type 0) : Type 1 where
  pub Address : Type 0
  pub Transport : Type 0
  pub Store : Type 0
  pub Snapshots : Type 0
  pub Handle : Type 0
  pub Pointer : Type 0
  pub quote : String → String
  pub join : String → String → String
  pub getenv : String → String
  pub allocate : Fsm → W → Pointer × W
  pub mkdir_all : String → W → Option String × W
  pub resolve_tcp : String → W → Try String Address × W
  pub new_tcp_transport : String → Address → ℕ → ℕ → W → Try String Transport × W
  pub new_bolt_store : String → W → Try String Store × W
  pub new_file_snapshots : String → ℕ → W → Try String Snapshots × W
  pub new_raft :
      RaftConfig → Pointer → Store → Store → Snapshots → Transport → W → Try String Handle × W
  pub bootstrap_cluster : Handle → List RaftServer → W → Option BootstrapError × W
  pub listen_and_serve : String → Handle → Pointer → Config → W → Option String × W

-- A step of the start: it gives an error or a value, and the state.
abbrev pub Start : Type 0 → Type 0 → Type 0
Start W A = W → Try String A × W

module _ {W A B : Type 0} where
  abbrev pub proceed : (A → Start W B) → Try String A × W → Try String B × W
  proceed f (ok a, w) = f a w
  proceed f (err m, w) = (err m, w)

  infixl 5 ◌>>=◌
  unfoldable pub ◌>>=◌ : Start W A → (A → Start W B) → Start W B
  ◌>>=◌ m f w = proceed f (m w)

module _ {W A : Type 0} where
  abbrev pub give : A → Start W A
  give a w = (ok a, w)

  -- fmt.Errorf of a text and `%w`
  abbrev pub wrap : String → Try String A × W → Try String A × W
  wrap s (ok a, w) = (ok a, w)
  wrap s (err m, w) = (err (s ++ m), w)

  abbrev pub wrapped : String → Start W A → Start W A
  wrapped s m w = wrap s (m w)

abbrev unless_error : {W : Type 0} → Option String × W → Try String (Unit {0}) × W
unless_error (none, w) = (ok tt, w)
unless_error (some m, w) = (err m, w)

abbrev pub raft_server : Peer → RaftServer
raft_server p = record { id = p.id; address = p.raft_addr }

abbrev pub raft_config : Config → RaftConfig
raft_config cfg = record {
  local_id = cfg.node_id;
  heartbeat = heartbeat_timeout;
  election = election_timeout;
  leader_lease = leader_lease_timeout;
  commit = commit_timeout;
  snapshot_interval = 30000;
  snapshot_threshold = 4096;
}

abbrev pub bootstrapped : {W : Type 0} → Option BootstrapError × W → Try String (Unit {0}) × W
bootstrapped (none, w) = (ok tt, w)
bootstrapped (some cannot_bootstrap, w) = (ok tt, w)
bootstrapped (some (other m), w) = (err ("bootstrap: " ++ m), w)

-- the text of a parse error
abbrev pub spec_error_text : (String → String) → SpecError → String
spec_error_text quote (bad_spec part) =
    "bad peer spec " ++ quote part ++ " (want id@raftaddr@httpurl)"
spec_error_text quote (bad_count n) =
    "cluster is fixed at three nodes; got " ++ decimal n ++ " peers"

-- How main ends: by log.Fatal with a message, or by returning.
pub data Ending : Type 0 where
  fatal : String → Ending
  returned : Ending

module _ {W : Type 0} (l : Libraries W) where
  -- Node: Raft's handle, the pointer to the state machine that was given to it, and the configuration
  pub record StartedNode : Type 0 where
    pub raft : l.Handle
    pub fsm : l.Pointer
    pub cfg : Config

  abbrev pub make_dir : Config → Start W (Unit {0})
  make_dir cfg w = unless_error (l.mkdir_all cfg.data_dir w)

  -- kv.NewFSM()
  abbrev pub allocated : l.Pointer × W → Try String l.Pointer × W
  allocated (p, w) = (ok p, w)

  abbrev pub allocate_fsm : Start W l.Pointer
  allocate_fsm w = allocated (l.allocate new_fsm w)

  abbrev pub bootstrap_servers : Config → l.Handle → Start W (Unit {0})
  bootstrap_servers cfg r w =
      if cfg.bootstrap
      then bootstrapped (l.bootstrap_cluster r (map raft_server cfg.peers) w)
      else (ok tt, w)

  -- NewNode
  unfoldable pub new_node : Config → Start W StartedNode
  new_node cfg = do
    made ← make_dir cfg
    address ←
        wrapped ("resolve advertise " ++ l.quote cfg.raft_advertise ++ ": ")
          (l.resolve_tcp cfg.raft_advertise)
    transport ← wrapped "raft transport: " (l.new_tcp_transport cfg.raft_bind address 3 10000)
    store ← wrapped "bolt store: " (l.new_bolt_store (l.join cfg.data_dir "raft.db"))
    snapshots ← wrapped "snapshot store: " (l.new_file_snapshots cfg.data_dir 2)
    fsm ← allocate_fsm
    r ← wrapped "new raft: " (l.new_raft (raft_config cfg) fsm store store snapshots transport)
    done ← bootstrap_servers cfg r
    give (record { raft = r; fsm = fsm; cfg = cfg })

  -- env
  abbrev pub env : String → String → String
  env key def = let v = l.getenv key in if v == "" then def else v

  abbrev pub config_of : List Peer → Config
  config_of peers = record {
    node_id = l.getenv "NODE_ID";
    data_dir = env "DATA_DIR" "/data";
    raft_bind = env "RAFT_BIND" ":7000";
    raft_advertise = env "RAFT_ADVERTISE" (l.getenv "NODE_ID" ++ ":7000");
    peers = peers;
    bootstrap = env "BOOTSTRAP" "true" == "true";
  }

  abbrev pub stopped : Option String × W → Ending × W
  stopped (none, w) = (returned, w)
  stopped (some m, w) = (fatal ("http: " ++ m), w)

  abbrev pub serve : Try String StartedNode × W → Ending × W
  serve (err m, w) = (fatal ("start node: " ++ m), w)
  serve (ok node, w) =
      stopped (l.listen_and_serve (env "HTTP_ADDR" ":8080") node.raft node.fsm node.cfg w)

  abbrev pub start_with : Try SpecError (List Peer) → W → Ending × W
  start_with (err e) w = (fatal ("parse PEERS: " ++ spec_error_text l.quote e), w)
  start_with (ok peers) w = serve (new_node (config_of peers) w)

  -- main
  unfoldable pub main : W → Ending × W
  unfolding new_node parse_peers
  main w =
      if l.getenv "NODE_ID" == ""
      then (fatal "NODE_ID is required", w)
      else if l.getenv "PEERS" == ""
      then (fatal "PEERS is required (id@raftaddr@httpurl,...)", w)
      else start_with (parse_peers (l.getenv "PEERS")) w
