-- ===== src/Server/Node/Leader.antt =====
-- Where a node sends what it cannot do itself.
use quorum_kv.Prelude.{
  String, ◌≡◌, refl, ◌||◌, List, [], ◌∷◌, ◌==◌, eq_iff, arith, ◌≢◌, ◌⊎◌, inl, inr, Bool-cases,
}
use mathlib.Core.Logic.Or
use mathlib.Core.List.{Mem, mem-cons}
use quorum_kv.Server.Node.{Peer, Config, url_of, leader_http_url}

-- A peer of the list that has the id, and whose URL is the given one.
pub record Listed (ps : List Peer) (id url : String) : Type 0 where
  pub peer : Peer
  pub listed : Mem peer ps
  pub same_id : peer.id ≡ id
  pub same_url : url ≡ peer.http_url

further : (p : Peer) (ps : List Peer) (id url : String) → Listed ps id url → Listed (p ∷ ps) id url
further p ps id url l = record {
  peer = l.peer;
  listed = mem-cons.1 (Or.inr l.listed);
  same_id = l.same_id;
  same_url = l.same_url;
}

url_of-Listed : (ps : List Peer) (id : String) → (url_of ps id ≡ "") ⊎ Listed ps id (url_of ps id)
unfolding url_of
url_of-Listed [] id = inl refl
url_of-Listed (p ∷ ps) id = elim (Bool-cases (p.id == id)) [
  | inl e ↦ inr (record {
    peer = p;
    listed = mem-cons.1 (Or.inl refl);
    same_id = (eq_iff p.id id).0 e;
    same_url = rw e;
  })
  | inr e ↦ elim (url_of-Listed ps id) [
    | inl none_ ↦ inl (rw (e, none_))
    | inr l ↦ inr (rw e (further p ps id (url_of ps id) l))
  ]
]

-- The URL to which a node proxies is empty, or it is that of a peer of its configuration which has the
-- id of the leader that Raft names; that id is not the node's own.
pub leader_http_url-Listed :
    (cfg : Config) (id : String)
    → (leader_http_url cfg id ≡ "")
      ⊎ ((id ≢ cfg.node_id) × Listed cfg.peers id (leader_http_url cfg id))
unfolding leader_http_url
leader_http_url-Listed cfg id = elim (Bool-cases (id == "" || id == cfg.node_id)) [
  | inl e ↦ inl (rw e)
  | inr e ↦ elim (url_of-Listed cfg.peers id) [
    | inl none_ ↦ inl (rw (e, none_))
    | inr l ↦ inr (rw e (ground (arith, eq_iff id cfg.node_id), l))
  ]
]
