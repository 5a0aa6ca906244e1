-- ===== src/Server/Start/Tests.antt =====
-- The start of a server in a small world that keeps a log of what was called.
use quorum_kv.Prelude.{
  String, ◌≡◌, refl, true, false, none, some, List, [], ◌∷◌, ◌++◌, map, ok, ◌==◌, if◌then◌else◌,
}
use quorum_kv.Server.Node.{Config, parse_peers}
use quorum_kv.Server.Start.{Libraries, RaftServer, ◌>>=◌, cannot_bootstrap, new_node, main, fatal}
use quorum_kv.Server.Start.Ends.{Ends}
use quorum_kv.Server.Start.Recovers.{new_node-recovers, handle_of}

abbrev Calls : Type 0
Calls = List String

abbrev ids : List RaftServer → List String
ids = map (λ s. s.id)

-- The cluster has a state; the HTTP address is taken.
abbrev libraries : (String → String) → Libraries Calls
libraries getenv = record {
  Address = String;
  Transport = String;
  Store = String;
  Snapshots = String;
  Handle = String;
  Pointer = String;
  quote = λ s. s;
  join = λ a b. b;
  getenv = getenv;
  allocate = λ f w. ("fsm", w ++ "fsm" ∷ []);
  mkdir_all = λ dir w. (none, w ++ dir ∷ []);
  resolve_tcp = λ a w. (ok a, w);
  new_tcp_transport = λ bind a n t w. (ok a, w ++ bind ∷ []);
  new_bolt_store = λ path w. (ok path, w ++ path ∷ []);
  new_file_snapshots = λ dir n w. (ok dir, w);
  new_raft = λ cfg fsm a b c d w. (ok cfg.local_id, w ++ "raft of " ∷ fsm ∷ []);
  bootstrap_cluster = λ r servers w. (some cannot_bootstrap, w);
  listen_and_serve = λ a r fsm cfg w. (some "address in use", w ++ a ∷ []);
}

abbrev environment : String → String
environment key =
    if key == "NODE_ID"
    then "n1"
    else if key == "PEERS"
    then "n1@n1:7000@http://n1,n2@n2:7000@http://n2,n3@n3:7000@http://n3"
    else ""

abbrev calls : Calls
calls = "/data" ∷ ":7000" ∷ "raft.db" ∷ "fsm" ∷ "raft of " ∷ "fsm" ∷ ":8080" ∷ []

main_of_environment : main (libraries environment) [] ≡ (fatal "http: address in use", calls)
unfolding main new_node ◌>>=◌ parse_peers
main_of_environment = refl

main_of_nothing : main (libraries (λ _. "")) [] ≡ (fatal "NODE_ID is required", [])
unfolding main
main_of_nothing = refl

abbrev config : Config
config = record {
  node_id = "n1";
  data_dir = "/data";
  raft_bind = ":7000";
  raft_advertise = "n1:7000";
  peers = [];
  bootstrap = true;
}

new_node-recovers_example :
    handle_of (libraries environment) (new_node (libraries environment) config [])
    ≡ handle_of
        (libraries environment)
        (new_node (libraries environment) (record config { bootstrap = false }) [])
new_node-recovers_example = new_node-recovers (libraries environment) config [] (λ r w. refl)
