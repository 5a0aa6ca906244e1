-- ===== src/Server/Http.antt =====
-- internal/server/http.go: the handler of "/kv/", over Raft and a proxy.
use quorum_kv.Prelude.{
  String, Bool, ◌||◌, not, Option, none, some, List, [], ◌∷◌, ◌==◌, if◌then◌else◌, Try, ok, err, ℕ,
}
use Prim.Native.Nat.{◌^◌}
use Prim.Native.String.{◌++◌, slice}
use quorum_kv.Strings.{trim_prefix, cut_suffix, contains}
use quorum_kv.Json.{Json, bool, str, obj, end, field, JsonError, JsonText, Bytes}
use quorum_kv.Json.Decode.{Slot, read_string, read_string_pointer, unmarshal}
use quorum_kv.Kv.Command.{Command, Result, op_put, op_get, op_delete, op_cas, encode}
use quorum_kv.Server.Node.{Config, leader_http_url}

-- putBody
pub record PutBody : Type 0 where
  pub value : String

-- casBody
pub record CasBody : Type 0 where
  pub expect : Option String
  pub value : String

abbrev pub put_slots : List (Slot PutBody)
put_slots =
    record {
      name = "value";
      fill = λ j b. let (s, fits) = read_string j b.value in (record b { value = s }, fits);
    }
    ∷ []

abbrev pub cas_slots : List (Slot CasBody)
cas_slots =
    record {
      name = "expect";
      fill =
          λ j b. let (s, fits) = read_string_pointer j b.expect in (record b { expect = s }, fits);
    }
    ∷ record {
      name = "value";
      fill = λ j b. let (s, fits) = read_string j b.value in (record b { value = s }, fits);
    }
    ∷ []

-- What a handler reads of a request: its method and path, the two headers (empty if absent), and what
-- reading the whole body gives.
pub record Request : Type 0 where
  pub method : String
  pub path : String
  pub no_proxy : String
  pub forwarded : String
  pub body : Try String Bytes

pub record Response : Type 0 where
  pub status : ℕ
  pub body : Bytes

abbrev pub err_no_leader : String
err_no_leader = "no_leader"

abbrev pub err_not_leader : String
err_not_leader = "not_leader"

abbrev pub err_bad_req : String
err_bad_req = "bad_request"

-- The errors of a Raft proposal: the two by which a node says that it does not lead, and any other.
pub data RaftError : Type 0 where
  not_leader : RaftError
  leadership_transfer_in_progress : RaftError
  other : String → RaftError

-- raft.Raft of one node, over the state `W` of the cluster: Apply with the error or the response of
-- its future (`none` if that is no kv.Result), and LeaderWithID.
pub data Future : Type 0 where
  failed : RaftError → Future
  responded : Option Result → Future

pub record Raft (W : Type 0) : Type 0 where
  pub propose : Bytes → W → Future × W
  pub leader_id : W → String

-- What the reverse proxy gets: the response of the other node, or an error.
abbrev pub Forward : Type 0 → Type 0
Forward W = String → Request → W → Try String Response × W

pub record Node (W : Type 0) : Type 0 where
  pub raft : Raft W
  pub cfg : Config

abbrev pub result_json : Result → Json
result_json r =
    obj
      (field "ok" (bool r.ok) (field "present" (bool r.present) (field "value" (str r.value) end)))

-- writeErr: the map is written with its keys sorted
abbrev pub error_json : String → String → Json
error_json code message = obj (field "error" (str code) (field "message" (str message) end))

module _ (text : JsonText) where
  -- writeJSON
  abbrev pub write_json : ℕ → Json → Response
  write_json code v = record { status = code; body = text.print v }

  abbrev pub write_err : ℕ → String → String → Response
  write_err status code message = write_json status (error_json code message)

  module _ {W : Type 0} (forward : Forward W) (parses_url : String → Bool) (n : Node W) where
    abbrev pub proxied : Try String Response × W → Response × W
    proxied (ok r, w) = (r, w)
    proxied (err m, w) = (write_err 502 "proxy_error" m, w)

    -- proxyOrReject
    unfoldable pub proxy_or_reject : Request → W → Response × W
    unfolding leader_http_url
    proxy_or_reject r w =
        let leader_url = leader_http_url n.cfg (n.raft.leader_id w) in
        if not (r.no_proxy == "")
        then (write_err 421 err_not_leader "this node is not the leader", w)
        else if leader_url == "" || not (r.forwarded == "")
        then (write_err 503 err_no_leader "no leader available from this node", w)
        else if not (parses_url leader_url)
        then (write_err 500 "internal" "bad leader url", w)
        else proxied (forward leader_url (record r { forwarded = "1" }) w)

    abbrev pub answer_proposal : Request → Future × W → Response × W
    answer_proposal r (responded (some res), w) = (write_json 200 (result_json res), w)
    answer_proposal r (responded none, w) = (write_err 500 "internal" "unexpected fsm response", w)
    answer_proposal r (failed not_leader, w) = proxy_or_reject r w
    answer_proposal r (failed leadership_transfer_in_progress, w) = proxy_or_reject r w
    answer_proposal r (failed (other m), w) = (write_err 500 "apply_failed" m, w)

    -- apply
    unfoldable pub apply : Request → Command → W → Response × W
    unfolding proxy_or_reject
    apply r cmd w = answer_proposal r (n.raft.propose (encode text cmd) w)

    abbrev pub bad_request : String → W → Response × W
    bad_request message w = (write_err 400 err_bad_req message, w)

    abbrev pub apply_cas : Request → String → CasBody × Option JsonError → W → Response × W
    apply_cas r key (b, some e) w = bad_request ("bad cas body: " ++ text.error_text e) w
    apply_cas r key (b, none) w =
        apply r (record { op = op_cas; key = key; value = b.value; expect = b.expect }) w

    abbrev pub apply_put : Request → String → PutBody × Option JsonError → W → Response × W
    apply_put r key (b, some e) w = bad_request ("bad put body: " ++ text.error_text e) w
    apply_put r key (b, none) w =
        apply r (record { op = op_put; key = key; value = b.value; expect = none }) w

    abbrev pub cas_key : Request → Option String → Option String
    cas_key r none = none
    cas_key r (some key) = if r.method == "POST" then some key else none

    -- the handler behind the test for a cas, for the key `key`
    unfoldable pub handle_key : Request → String → Bytes → W → Response × W
    unfolding apply unmarshal contains
    handle_key r key raw w =
        if contains key b'/'
        then bad_request "key must not contain '/'" w
        else if r.method == "GET"
        then apply r (record { op = op_get; key = key; value = ""; expect = none }) w
        else if r.method == "PUT"
        then apply_put r key (unmarshal text put_slots raw (record { value = "" })) w
        else if r.method == "DELETE"
        then apply r (record { op = op_delete; key = key; value = ""; expect = none }) w
        else (write_err 405 err_bad_req "method not allowed", w)

    abbrev pub cas_or_key : Request → String → Bytes → W → Option String → Response × W
    cas_or_key r rest raw w (some key) =
        apply_cas r key (unmarshal text cas_slots raw (record { expect = none; value = "" })) w
    cas_or_key r rest raw w none = handle_key r rest raw w

    abbrev pub handle_read : Request → String → Try String Bytes → W → Response × W
    handle_read r rest (err m) w = bad_request ("read body: " ++ m) w
    handle_read r rest (ok b) w =
        let raw = slice b 0 (2 ^ 20) in
        cas_or_key (record r { body = ok raw }) rest raw w (cas_key r (cut_suffix rest "/cas"))

    -- the handler of "/kv/"
    unfoldable pub handle_kv : Request → W → Response × W
    unfolding handle_key apply unmarshal trim_prefix cut_suffix
    handle_kv r w =
        let rest = trim_prefix r.path "/kv/" in
        if rest == "" then bad_request "missing key" w else handle_read r rest r.body w
