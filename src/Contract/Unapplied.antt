-- ===== src/Contract/Unapplied.antt =====
-- The whole handler: a definite failure leaves the log as it was, on the node itself and through the
-- proxy.
use quorum_kv.Prelude.{
  String, ◌≡◌, refl, Bool, true, false, Option, none, some, ◌==◌, arith, if◌then◌else◌, Try, ok,
  err,
}
use quorum_kv.Json.{JsonText, Bytes, JsonError}
use quorum_kv.Json.Decode.{unmarshal}
use quorum_kv.Kv.Command.{Command, op_get, op_delete}
use quorum_kv.Server.Node.{leader_http_url}
use quorum_kv.Server.Http.{
  Request, Response, not_leader, leadership_transfer_in_progress, other, Future, failed, responded,
  Forward, Node, write_err, proxied, proxy_or_reject, answer_proposal, apply, PutBody, CasBody,
  handle_key, handle_read, cas_or_key, handle_kv, apply_cas, apply_put, err_bad_req, put_slots,
}
use quorum_kv.Strings.{trim_prefix, contains}
use quorum_kv.Contract.Definite.{Keeps, Keeps-if, Keeps-error, Keeps-from, Keeps-same, Keeps-ok}

-- ErrNotLeader and ErrLeadershipTransferInProgress
abbrev pub is_redirect : Future → Bool
is_redirect (failed not_leader) = true
is_redirect (failed leadership_transfer_in_progress) = true
is_redirect (failed (other m)) = false
is_redirect (responded r) = false

abbrev pub Relayed :
    {W L : Type 0} (text : JsonText) (log : W → L) → W → Try String Response × W → Type 0
Relayed text log w (ok resp, w') = Keeps text log w (resp, w')
Relayed text log w (err m, w') = Unit

module _ {W L : Type 0} (text : JsonText) (log : W → L) (forward : Forward W)
    (parses_url : String → Bool) (n : Node W)
    (redirects : (b : Bytes) (w : W)
      → is_redirect (n.raft.propose b w).0 ≡ true
      → log (n.raft.propose b w).1 ≡ log w)
    (relays : (url : String) (r : Request) (w : W)
      → Relayed text log w (forward url (record r { forwarded = "1" }) w)) where
  proxied-Keeps :
      (w : W) (p : Try String Response × W)
      → Relayed text log w p
      → Keeps text log w (proxied text forward parses_url n p)
  proxied-Keeps w (ok resp, w') k = k
  proxied-Keeps w (err m, w') k = Keeps-error text log w w' 502 "proxy_error" m refl refl

  proxy_or_reject-Keeps :
      (r : Request) (w : W) → Keeps text log w (proxy_or_reject text forward parses_url n r w)
  unfolding proxy_or_reject
  proxy_or_reject-Keeps r w = ground (
    arith,
    Keeps-same text log w,
    Keeps-error text log w w 500 "internal" "bad leader url" refl refl,
    proxied-Keeps w _ (relays (leader_http_url n.cfg (n.raft.leader_id w)) r w),
  )

  answer_proposal-Keeps :
      (r : Request) (w : W) (p : Future × W)
      → (is_redirect p.0 ≡ true → log p.1 ≡ log w)
      → Keeps text log w (answer_proposal text forward parses_url n r p)
  answer_proposal-Keeps r w (responded (some res), w') k = Keeps-ok text log w w' _
  answer_proposal-Keeps r w (responded none, w') k =
      Keeps-error text log w w' 500 "internal" _ refl refl
  answer_proposal-Keeps r w (failed not_leader, w') k =
      Keeps-from text log w w' _ (k refl) (proxy_or_reject-Keeps r w')
  answer_proposal-Keeps r w (failed leadership_transfer_in_progress, w') k =
      Keeps-from text log w w' _ (k refl) (proxy_or_reject-Keeps r w')
  answer_proposal-Keeps r w (failed (other m), w') k =
      Keeps-error text log w w' 500 "apply_failed" m refl refl

  apply-Keeps :
      (r : Request) (c : Command) (w : W) → Keeps text log w (apply text forward parses_url n r c w)
  apply-Keeps r c w = unfold apply in answer_proposal-Keeps r w (n.raft.propose _ w) (redirects _ w)

  apply_put-Keeps :
      (r : Request) (key : String) (b : PutBody × Option JsonError) (w : W)
      → Keeps text log w (apply_put text forward parses_url n r key b w)
  apply_put-Keeps r key (b, some e) w = Keeps-same text log w _
  apply_put-Keeps r key (b, none) w = apply-Keeps r _ w

  apply_cas-Keeps :
      (r : Request) (key : String) (b : CasBody × Option JsonError) (w : W)
      → Keeps text log w (apply_cas text forward parses_url n r key b w)
  apply_cas-Keeps r key (b, some e) w = Keeps-same text log w _
  apply_cas-Keeps r key (b, none) w = apply-Keeps r _ w

  -- A choice among a bad request, the operations of the three methods and any other method.
  by_method-Keeps :
      (w : W) (slash g p d : Bool) (bad other_method : Response) (x y z : Response × W)
      → Keeps text log w x
      → Keeps text log w y
      → Keeps text log w z
      → Keeps text log w (
          if slash
          then (bad, w)
          else if g
          then x
          else if p
          then y
          else if d
          then z
          else (other_method, w))
  by_method-Keeps w true g p d bad other_method x y z hx hy hz = Keeps-same text log w bad
  by_method-Keeps w false true p d bad other_method x y z hx hy hz = hx
  by_method-Keeps w false false true d bad other_method x y z hx hy hz = hy
  by_method-Keeps w false false false true bad other_method x y z hx hy hz = hz
  by_method-Keeps w false false false false bad other_method x y z hx hy hz =
      Keeps-same text log w other_method

  handle_key-Keeps :
      (r : Request) (key : String) (raw : Bytes) (w : W)
      → Keeps text log w (handle_key text forward parses_url n r key raw w)
  unfolding handle_key
  handle_key-Keeps r key raw w =
      let read : Command = record { op = op_get; key = key; value = ""; expect = none } in
      let drop : Command = record { op = op_delete; key = key; value = ""; expect = none } in
      let body = unmarshal text put_slots raw (record { value = "" }) in
      by_method-Keeps w (contains key b'/') (r.method == "GET") (r.method == "PUT")
        (r.method == "DELETE") (write_err text 400 err_bad_req "key must not contain '/'")
        (write_err text 405 err_bad_req "method not allowed")
        (apply text forward parses_url n r read w)
        (apply_put text forward parses_url n r key body w)
        (apply text forward parses_url n r drop w) (apply-Keeps r read w)
        (apply_put-Keeps r key body w) (apply-Keeps r drop w)

  cas_or_key-Keeps :
      (r : Request) (rest : String) (raw : Bytes) (w : W) (found : Option String)
      → Keeps text log w (cas_or_key text forward parses_url n r rest raw w found)
  cas_or_key-Keeps r rest raw w (some key) = apply_cas-Keeps r key _ w
  cas_or_key-Keeps r rest raw w none = handle_key-Keeps r rest raw w

  handle_read-Keeps :
      (r : Request) (rest : String) (b : Try String Bytes) (w : W)
      → Keeps text log w (handle_read text forward parses_url n r rest b w)
  handle_read-Keeps r rest (err m) w = Keeps-same text log w _
  handle_read-Keeps r rest (ok b) w = cas_or_key-Keeps _ rest _ w _

  pub handle_kv-Keeps :
      (r : Request) (w : W) → Keeps text log w (handle_kv text forward parses_url n r w)
  unfolding handle_kv
  handle_kv-Keeps r w =
      let rest = trim_prefix r.path "/kv/" in
      Keeps-if text log w (rest == "") (write_err text 400 err_bad_req "missing key", w)
        (handle_read text forward parses_url n r rest r.body w) (Keeps-same text log w _)
        (handle_read-Keeps r rest r.body w)
