-- ===== src/Server/Start/Ends.antt =====
-- How the main of cmd/server ends.
use quorum_kv.Prelude.{String, ◌≡◌, ◌≢◌, List, ok, err, length}
use Prim.Native.String.{◌++◌}
use quorum_kv.Specs.{SpecError}
use quorum_kv.Server.Node.{Peer, parse_peers}
use quorum_kv.Server.Start.{
  Libraries, StartedNode, new_node, config_of, Ending, fatal, stopped, env, spec_error_text,
}
use quorum_kv.Server.Start.Started.{Started}

module _ {W : Type 0} (l : Libraries W) where
  -- How main ends, on every branch.
  pub data Ends (w : W) : Ending × W → Type 0 where
    no_id : l.getenv "NODE_ID" ≡ "" → Ends w (fatal "NODE_ID is required", w)
    no_peers :
        l.getenv "PEERS" ≡ "" → Ends w (fatal "PEERS is required (id@raftaddr@httpurl,...)", w)
    bad_peers :
        (e : SpecError)
        → parse_peers (l.getenv "PEERS") ≡ err e
        → Ends w (fatal ("parse PEERS: " ++ spec_error_text l.quote e), w)
    not_started :
        (peers : List Peer) (m : String) (w' : W)
        → length peers ≡ 3
        → new_node l (config_of l peers) w ≡ (err m, w')
        → Ends w (fatal ("start node: " ++ m), w')
    served :
        (peers : List Peer) (node : StartedNode l) (w' : W)
        → l.getenv "NODE_ID" ≢ ""
        → length peers ≡ 3
        → new_node l (config_of l peers) w ≡ (ok node, w')
        → Started l (config_of l peers) node w'
        → Ends w (
            stopped l (
              l.listen_and_serve
                (env l "HTTP_ADDR" ":8080")
                node.raft
                node.fsm
                (config_of l peers)
                w'))
