-- ===== src/Server/Start/Started.antt =====
-- What NewNode has done when it returns a node.
use quorum_kv.Prelude.{
  String, ◌≡◌, refl, Bool, true, false, Option, none, some, List, map, if◌then◌else◌, Try, ok, err,
  inl, inr, ◌⊎◌,
}
use mathlib.Core.Path.{subst}
use quorum_kv.Kv.Fsm.{new_fsm}
use quorum_kv.Server.Node.{Peer, Config}
use quorum_kv.Server.Start.{
  allocate_fsm, wrap, allocated, bootstrap_servers, wrapped, raft_config, Libraries, Start, ◌>>=◌,
  proceed, give, BootstrapError, cannot_bootstrap, bootstrapped, raft_server, StartedNode, new_node,
  other,
}

module _ {W A : Type 0} where
  abbrev Post : (A → W → Type 0) → Try String A × W → Type 0
  Post Q (ok a, w) = Q a w
  Post Q (err m, w) = Unit

  Post-ok :
      (Q : A → W → Type 0) (x : Try String A × W) (a : A) (w : W) → Post Q x → x ≡ (ok a, w) → Q a w
  Post-ok Q x a w h e = subst (Post Q) e h

  -- What holds where a start succeeds.
  record Ensures (Q : A → W → Type 0) (m : Start W A) : Type 0 where
    at : (w : W) → Post Q (m w)

module _ {W B : Type 0} where
  Post-any : (x : Try String B × W) → Post (λ b w. Unit) x
  Post-any (ok b, w) = tt
  Post-any (err m, w) = tt

module _ {W A B : Type 0} where
  Post-proceed :
      (P : B → W → Type 0) (Q : A → W → Type 0) (f : B → Start W A)
      → ((b : B) (w : W) → P b w → Post Q (f b w))
      → (x : Try String B × W) → Post P x
      → Post Q (proceed f x)
  Post-proceed P Q f h (ok b, w) p = h b w p
  Post-proceed P Q f h (err m, w) p = tt

  Ensures-then :
      (Q : A → W → Type 0) (m : Start W B) (f : B → Start W A)
      → ((b : B) → Ensures Q (f b))
      → Ensures Q (m >>= f)
  unfolding ◌>>=◌
  Ensures-then Q m f h = record {
    at = λ w. Post-proceed (λ b v. Unit) Q f (λ b v _. (h b).at v) (m w) (Post-any (m w));
  }

module _ {W : Type 0} (l : Libraries W) where
  -- Raft knows the cluster's servers: it was told them, or had a state already.
  pub record Told (r : l.Handle) (peers : List Peer) (before after : W) : Type 0 where
    pub error : Option BootstrapError
    pub call : l.bootstrap_cluster r (map raft_server peers) before ≡ (error, after)
    pub harmless : (error ≡ none) ⊎ (error ≡ some cannot_bootstrap)

  -- An empty state machine was allocated, and Raft was made next, with the pointer to it.
  pub record Created (cfg : Config) (r : l.Handle) (fsm : l.Pointer) (after : W) : Type 0 where
    pub before : W
    pub between : W
    pub store : l.Store
    pub snapshots : l.Snapshots
    pub transport : l.Transport
    pub allocated_empty : l.allocate new_fsm before ≡ (fsm, between)
    pub made_raft :
        l.new_raft (raft_config cfg) fsm store store snapshots transport between ≡ (ok r, after)

  -- Raft was told of the servers if it was to be, and nothing was done if not.
  pub record Introduced (b : Bool) (r : l.Handle) (peers : List Peer) (before after : W)
      : Type 0 where
    pub told : b ≡ true → Told r peers before after
    pub untold : b ≡ false → after ≡ before

  -- A node that NewNode returns.
  pub record Started (cfg : Config) (node : StartedNode l) (after : W) : Type 0 where
    pub own_cfg : node.cfg ≡ cfg
    pub opened : W
    pub created : Created cfg node.raft node.fsm opened
    pub introduced : Introduced cfg.bootstrap node.raft cfg.peers opened after

  Introduced-bootstrapped :
      (r : l.Handle) (peers : List Peer) (w : W) (x : Option BootstrapError × W)
      → l.bootstrap_cluster r (map raft_server peers) w ≡ x
      → Post (λ u v. Introduced true r peers w v) (bootstrapped x)
  Introduced-bootstrapped r peers w (none, v) e = record {
    told = λ _. record { error = none; call = e; harmless = inl refl };
    untold = λ c. absurd cc;
  }
  Introduced-bootstrapped r peers w (some cannot_bootstrap, v) e = record {
    told = λ _. record { error = some cannot_bootstrap; call = e; harmless = inr refl };
    untold = λ c. absurd cc;
  }
  Introduced-bootstrapped r peers w (some (other m), v) e = tt

  Introduced-if :
      (b : Bool) (r : l.Handle) (peers : List Peer) (w : W)
      → Post
          (λ u v. Introduced b r peers w v)
          (if b then bootstrapped (l.bootstrap_cluster r (map raft_server peers) w) else (ok tt, w))
  Introduced-if false r peers w = record { told = λ e. absurd cc; untold = λ _. refl }
  Introduced-if true r peers w =
      Introduced-bootstrapped r peers w (l.bootstrap_cluster r (map raft_server peers) w) refl

  module _ (cfg : Config) (store : l.Store) (snapshots : l.Snapshots)
      (transport : l.Transport) where
    Started-made :
        (fsm : l.Pointer) (before between : W) (x : Try String l.Handle × W)
        → l.allocate new_fsm before ≡ (fsm, between)
        → l.new_raft (raft_config cfg) fsm store store snapshots transport between ≡ x
        → Post (Started cfg) (
            proceed
              (λ r.
                bootstrap_servers l cfg r >>= λ _. give (record { raft = r; fsm = fsm; cfg = cfg }))
              (wrap "new raft: " x))
    unfolding ◌>>=◌
    Started-made fsm before between (err m, w) a e = tt
    Started-made fsm before between (ok r, w) a e =
        Post-proceed (λ u v. Introduced cfg.bootstrap r cfg.peers w v) (Started cfg)
          (λ _. give (record { raft = r; fsm = fsm; cfg = cfg }))
          (λ u v i. record {
            own_cfg = refl;
            opened = w;
            created = record {
              before = before;
              between = between;
              store = store;
              snapshots = snapshots;
              transport = transport;
              allocated_empty = a;
              made_raft = e;
            };
            introduced = i;
          })
          (bootstrap_servers l cfg r w) (Introduced-if cfg.bootstrap r cfg.peers w)

    Started-allocated :
        (w : W) (x : l.Pointer × W)
        → l.allocate new_fsm w ≡ x
        → Post (Started cfg) (
            proceed
              (λ fsm.
                wrapped "new raft: "
                  (l.new_raft (raft_config cfg) fsm store store snapshots transport)
                >>= λ r. bootstrap_servers l cfg r >>= λ _.
                    give (record { raft = r; fsm = fsm; cfg = cfg }))
              (allocated l x))
    unfolding ◌>>=◌
    Started-allocated w (fsm, v) a =
        Started-made fsm w v (l.new_raft (raft_config cfg) fsm store store snapshots transport v) a
          refl

    Ensures-allocate_fsm : Ensures (Started cfg) (
        allocate_fsm l >>= λ fsm.
        wrapped "new raft: " (l.new_raft (raft_config cfg) fsm store store snapshots transport)
        >>= λ r.
            bootstrap_servers l cfg r >>= λ _. give (record { raft = r; fsm = fsm; cfg = cfg }))
    unfolding ◌>>=◌
    Ensures-allocate_fsm = record { at = λ w. Started-allocated w (l.allocate new_fsm w) refl }

  Ensures-new_node : (cfg : Config) → Ensures (Started cfg) (new_node l cfg)
  unfolding new_node
  Ensures-new_node cfg = Ensures-then _ _ _ (λ _. Ensures-then _ _ _ (λ address.
      Ensures-then _ _ _ (λ transport. Ensures-then _ _ _ (λ store.
        Ensures-then _ _ _ (λ snapshots. Ensures-allocate_fsm cfg store snapshots transport)))))

  -- A node that NewNode returns has the given configuration; its state machine was allocated empty, Raft
  -- was made next, with the pointer to it; and then, if it is to bootstrap, the last thing done was to
  -- tell Raft of the cluster's peers, in their order, and Raft took them or had a state already.
  pub new_node-Started :
      (cfg : Config) (node : StartedNode l) (w w' : W)
      → new_node l cfg w ≡ (ok node, w')
      → Started cfg node w'
  new_node-Started cfg node w w' e =
      Post-ok (Started cfg) (new_node l cfg w) node w' ((Ensures-new_node cfg).at w) e
