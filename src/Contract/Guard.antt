-- ===== src/Contract/Guard.antt =====
-- The loop guard: a forwarded request is not forwarded again.
use quorum_kv.Prelude.{
  String, ◌≡◌, refl, Bool, false, Option, none, some, ◌==◌, arith, Try, ok, err,
}
use quorum_kv.Json.{JsonText, Bytes, JsonError}
use quorum_kv.Json.Decode.{unmarshal}
use quorum_kv.Kv.Command.{Command, op_get, op_delete}
use quorum_kv.Server.Http.{
  Request, not_leader, leadership_transfer_in_progress, other, Future, failed, responded, Forward,
  Node, proxy_or_reject, answer_proposal, apply, PutBody, CasBody, handle_key, handle_read,
  cas_or_key, handle_kv, apply_cas, apply_put, put_slots,
}
use quorum_kv.Strings.{trim_prefix}

module _ {W : Type 0} (text : JsonText) (f f' : Forward W) (parses_url : String → Bool)
    (n : Node W) where
  abbrev IsForwarded : Request → Type 0
  IsForwarded r = (r.forwarded == "") ≡ false

  proxy-guard :
      (r : Request) (w : W)
      → IsForwarded r
      → proxy_or_reject text f parses_url n r w ≡ proxy_or_reject text f' parses_url n r w
  unfolding proxy_or_reject
  proxy-guard r w h = ground arith

  answer-guard :
      (r : Request) (p : Future × W)
      → IsForwarded r
      → answer_proposal text f parses_url n r p ≡ answer_proposal text f' parses_url n r p
  answer-guard r (responded (some res), w) h = refl
  answer-guard r (responded none, w) h = refl
  answer-guard r (failed not_leader, w) h = proxy-guard r w h
  answer-guard r (failed leadership_transfer_in_progress, w) h = proxy-guard r w h
  answer-guard r (failed (other m), w) h = refl

  apply-guard :
      (r : Request) (c : Command) (w : W)
      → IsForwarded r
      → apply text f parses_url n r c w ≡ apply text f' parses_url n r c w
  unfolding apply
  apply-guard r c w h = answer-guard r _ h

  put-guard :
      (r : Request) (key : String) (b : PutBody × Option JsonError) (w : W)
      → IsForwarded r
      → apply_put text f parses_url n r key b w ≡ apply_put text f' parses_url n r key b w
  put-guard r key (b, some e) w h = refl
  put-guard r key (b, none) w h = apply-guard r _ w h

  cas-guard :
      (r : Request) (key : String) (b : CasBody × Option JsonError) (w : W)
      → IsForwarded r
      → apply_cas text f parses_url n r key b w ≡ apply_cas text f' parses_url n r key b w
  cas-guard r key (b, some e) w h = refl
  cas-guard r key (b, none) w h = apply-guard r _ w h

  key-guard :
      (r : Request) (key : String) (raw : Bytes) (w : W)
      → IsForwarded r
      → handle_key text f parses_url n r key raw w ≡ handle_key text f' parses_url n r key raw w
  unfolding handle_key
  key-guard r key raw w h = rw (
    apply-guard r (record { op = op_get; key = key; value = ""; expect = none }) w h,
    apply-guard r (record { op = op_delete; key = key; value = ""; expect = none }) w h,
    put-guard r key (unmarshal text put_slots raw (record { value = "" })) w h,
  )

  cas_or_key-guard :
      (r : Request) (rest : String) (raw : Bytes) (w : W) (found : Option String)
      → IsForwarded r
      → cas_or_key text f parses_url n r rest raw w found
        ≡ cas_or_key text f' parses_url n r rest raw w found
  cas_or_key-guard r rest raw w (some key) h = cas-guard r key _ w h
  cas_or_key-guard r rest raw w none h = key-guard r rest raw w h

  read-guard :
      (r : Request) (rest : String) (b : Try String Bytes) (w : W)
      → IsForwarded r
      → handle_read text f parses_url n r rest b w ≡ handle_read text f' parses_url n r rest b w
  read-guard r rest (err m) w h = refl
  read-guard r rest (ok b) w h = cas_or_key-guard _ rest _ w _ h

  -- A request that another node has already forwarded gets the same response, and leaves the same
  -- state, whatever the proxy would do: it is never forwarded a second time.
  pub forwarded_once :
      (r : Request) (w : W)
      → (r.forwarded == "") ≡ false
      → handle_kv text f parses_url n r w ≡ handle_kv text f' parses_url n r w
  unfolding handle_kv
  forwarded_once r w h = rw (read-guard r (trim_prefix r.path "/kv/") r.body w h)
