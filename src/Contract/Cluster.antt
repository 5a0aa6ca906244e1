-- ===== src/Contract/Cluster.antt =====
-- A cluster whose nodes proxy to one another: what a definite failure says of the shared log.
use quorum_kv.Prelude.{String, ◌≡◌, refl, Bool, true, false, ◌==◌, Try, ok, err}
use quorum_kv.Json.{JsonText, Bytes}
use quorum_kv.Server.Http.{Request, Response, Forward, Node, handle_kv}
use quorum_kv.Contract.Definite.{IsFail, Keeps}
use quorum_kv.Contract.Unapplied.{is_redirect, Relayed, handle_kv-Keeps}
use quorum_kv.Contract.Guard.{forwarded_once}

module _ {W I : Type 0} (text : JsonText) (forward : Forward W) (parses_url : String → Bool)
    (nodes : I → Node W) where
  -- How the proxy ends for a request at the state `w`: with an error and any state, or with the response
  -- of one of the nodes.
  pub data Delivered (r : Request) (w : W) : Try String Response × W → Type 0 where
    lost : (m : String) (w' : W) → Delivered r w (err m, w')
    served_by :
        (i : I)
        → Delivered r w (
          ok (handle_kv text forward parses_url (nodes i) r w).0,
          (handle_kv text forward parses_url (nodes i) r w).1,
        )

  module _ {L : Type 0} (log : W → L)
      (redirects : (i : I) (b : Bytes) (w : W)
        → is_redirect ((nodes i).raft.propose b w).0 ≡ true
        → log ((nodes i).raft.propose b w).1 ≡ log w) where
    -- A node that is asked by another one does not ask a third.
    forwarded-Keeps :
        (i : I) (r : Request) (w : W)
        → (r.forwarded == "") ≡ false
        → Keeps text log w (handle_kv text forward parses_url (nodes i) r w)
    forwarded-Keeps i r w h =
        let never : Forward W = λ url q v. (err "", v) in
        let k =
          handle_kv-Keeps text log never parses_url (nodes i) (redirects i) (λ url q v. tt) r w in
        rw (forwarded_once text forward never parses_url (nodes i) r w h) k

    Delivered-Relayed :
        (r : Request) (w : W) (x : Try String Response × W)
        → (r.forwarded == "") ≡ false
        → Delivered r w x
        → Relayed text log w x
    Delivered-Relayed r w _ h (lost m w') = tt
    Delivered-Relayed r w _ h (served_by i) = forwarded-Keeps i r w h

    -- In a cluster whose proxies end with an error or with the response of one of its nodes, and where
    -- a proposal that Raft refuses for want of leadership leaves the log as it was: a request that a
    -- node answers with what a client takes for a definite failure, in a body of at most 1 MiB, has
    -- left the log as it was.
    pub definite_failure :
        (delivers : (url : String) (r : Request) (w : W)
          → Delivered
              (record r { forwarded = "1" })
              w
              (forward url (record r { forwarded = "1" }) w))
        (i : I) (r : Request) (w : W)
        → IsFail text (handle_kv text forward parses_url (nodes i) r w).0
        → log (handle_kv text forward parses_url (nodes i) r w).1 ≡ log w
    definite_failure delivers i r w =
        (handle_kv-Keeps text log forward parses_url (nodes i) (redirects i)
          (λ url q v. Delivered-Relayed (record q { forwarded = "1" }) v _ refl (delivers url q v))
          r w).keep
