-- ===== src/Server/Start/Recovers.antt =====
-- NewNode on a node that has a state already.
use quorum_kv.Prelude.{String, ◌≡◌, refl, true, false, some, List, map, Try, ok, err}
use quorum_kv.Server.Node.{Peer, Config}
use quorum_kv.Server.Start.{
  Libraries, Start, ◌>>=◌, proceed, cannot_bootstrap, raft_server, StartedNode, bootstrap_servers,
  new_node,
}

module _ {W : Type 0} (l : Libraries W) where
  -- A start without the configuration that the node holds.
  abbrev pub handle_of : Try String (StartedNode l) × W → Try String (l.Handle × l.Pointer) × W
  handle_of (ok node, w) = (ok (node.raft, node.fsm), w)
  handle_of (err m, w) = (err m, w)

  record Same (m m' : Start W (StartedNode l)) : Type 0 where
    at : (w : W) → handle_of (m w) ≡ handle_of (m' w)

  Same-proceed :
      {B : Type 0} (f g : B → Start W (StartedNode l))
      → ((b : B) (w : W) → handle_of (f b w) ≡ handle_of (g b w))
      → (x : Try String B × W) → handle_of (proceed f x) ≡ handle_of (proceed g x)
  Same-proceed f g h (ok b, w) = h b w
  Same-proceed f g h (err m, w) = refl

  Same-then :
      {B : Type 0} (m : Start W B) (f g : B → Start W (StartedNode l))
      → ((b : B) → Same (f b) (g b))
      → Same (m >>= f) (m >>= g)
  unfolding ◌>>=◌
  Same-then m f g h = record { at = λ w. Same-proceed f g (λ b v. (h b).at v) (m w) }

  -- Raft refuses to bootstrap the cluster of these peers, since it has a state already.
  abbrev pub HasState : List Peer → Type 0
  HasState peers =
      (r : l.Handle) (w : W)
      → l.bootstrap_cluster r (map raft_server peers) w ≡ (some cannot_bootstrap, w)

  Same-last :
      (peers : List Peer) (r : l.Handle) (f g : Unit {0} → Start W (StartedNode l)) (cfg : Config)
      → HasState peers
      → ((w : W) → handle_of (f tt w) ≡ handle_of (g tt w))
      → Same
          (bootstrap_servers l (record cfg { peers = peers; bootstrap = true }) r >>= f)
          (bootstrap_servers l (record cfg { peers = peers; bootstrap = false }) r >>= g)
  unfolding ◌>>=◌
  Same-last peers r f g cfg s h = record { at = λ w. rw (s r w) (h w) }

  new_node-Same :
      (cfg : Config)
      → HasState cfg.peers
      → Same
          (new_node l (record cfg { bootstrap = true }))
          (new_node l (record cfg { bootstrap = false }))
  unfolding new_node
  new_node-Same cfg s = Same-then _ _ _ (λ _. Same-then _ _ _ (λ address.
      Same-then _ _ _ (λ transport. Same-then _ _ _ (λ store. Same-then _ _ _ (λ snapshots.
        Same-then _ _ _
          (λ fsm. Same-then _ _ _ (λ r. Same-last cfg.peers r _ _ cfg s (λ w. refl))))))))

  -- On a node that has a state already, NewNode does the same, whether it is told to bootstrap or not: it
  -- fails with the same error or gives the same handle of Raft and the same state machine, and leaves the same state of the machine.
  pub new_node-recovers :
      (cfg : Config) (w : W)
      → HasState cfg.peers
      → handle_of (new_node l (record cfg { bootstrap = true }) w)
        ≡ handle_of (new_node l (record cfg { bootstrap = false }) w)
  new_node-recovers cfg w s = (new_node-Same cfg s).at w
