-- ===== src/Harness/Client.antt =====
-- internal/harness/client.go: one attempt of a client, and how its outcome is classified.
use quorum_kv.Prelude.{
  String, Bool, true, false, ◌||◌, Option, none, some, List, [], ◌∷◌, ◌==◌, if◌then◌else◌, Try, ok,
  err, ℕ, nat_eq,
}
use Prim.Native.Nat.{◌^◌}
use Prim.Native.String.{◌++◌, slice}
use quorum_kv.Json.{str, obj, end, field, JsonError, JsonText, Bytes}
use quorum_kv.Json.Decode.{Slot, read_string, read_bool, unmarshal}
use quorum_kv.Kv.Command.{string_pointer_json}
use quorum_kv.History.{Op}
use quorum_kv.Harness.Nodes.{Node}

-- attemptResult
pub record AttemptResult : Type 0 where
  pub class : String
  pub ok : Bool
  pub present : Bool
  pub val : String

-- attemptResult{class: c}
abbrev pub classed : String → AttemptResult
classed c = record { class = c; ok = false; present = false; val = "" }

-- What errors.Is and errors.As find in the error of http.Client.Do: the three errnos, and the Op of a
-- net.OpError if there is one.
pub record SendError : Type 0 where
  pub conn_refused : Bool
  pub host_unreach : Bool
  pub net_unreach : Bool
  pub net_op : Option String

abbrev is_dial : Option String → Bool
is_dial none = false
is_dial (some op) = op == "dial"

-- isDefinitelyNotSent
unfoldable pub is_definitely_not_sent : SendError → Bool
is_definitely_not_sent e =
    if e.conn_refused || e.host_unreach || e.net_unreach then true else is_dial e.net_op

-- The request that an attempt sends; its URL has been read, and `path` is the path of it.
pub record HttpRequest : Type 0 where
  pub method : String
  pub url : String
  pub path : String
  pub body : Option Bytes
  pub no_proxy : Bool

-- What http.Client.Do gives: an error, or a status and what reading the body gives.
pub data Exchange : Type 0 where
  send_error : SendError → Exchange
  answered : ℕ → Try String Bytes → Exchange

-- the anonymous struct that the body of a 200 is read into
pub record OkBody : Type 0 where
  pub ok : Bool
  pub present : Bool
  pub value : String

abbrev pub ok_slots : List (Slot OkBody)
ok_slots =
    record {
      name = "ok";
      fill = λ j b. let (s, fits) = read_bool j b.ok in (record b { ok = s }, fits);
    }
    ∷ record {
      name = "present";
      fill = λ j b. let (s, fits) = read_bool j b.present in (record b { present = s }, fits);
    }
    ∷ record {
      name = "value";
      fill = λ j b. let (s, fits) = read_string j b.value in (record b { value = s }, fits);
    }
    ∷ []

-- the anonymous struct that any other body is read into
pub record ErrorBody : Type 0 where
  pub error : String

abbrev pub error_slots : List (Slot ErrorBody)
error_slots =
    record {
      name = "error";
      fill = λ j b. let (s, fits) = read_string j b.error in (record b { error = s }, fits);
    }
    ∷ []

abbrev pub ok_result : OkBody × Option JsonError → AttemptResult
ok_result (b, some e) = classed "unknown"
ok_result (b, none) = record { class = "ok"; ok = b.ok; present = b.present; val = b.value }

-- the switch on the error's code
abbrev pub rejection : String → AttemptResult
rejection e =
    if e == "no_leader" || e == "not_leader" || e == "bad_request"
    then classed "fail"
    else classed "unknown"

-- http.NewRequestWithContext of a URL's text, where `url_path` is what net/url reads of it: its path,
-- decoded and without query and fragment, or nothing if it does not parse.
unfoldable pub new_request :
    (String → Option String) → String → String → Option Bytes → Bool → Option HttpRequest
new_request url_path method url body no_proxy = elim (url_path url) [
  | none ↦ none
  | some path ↦
      some (record { method = method; url = url; path = path; body = body; no_proxy = no_proxy })
]

module _ (text : JsonText) where
  abbrev classify_body : ℕ → Bytes → AttemptResult
  classify_body status body =
      if nat_eq status 200
      then ok_result
          (unmarshal text ok_slots body (record { ok = false; present = false; value = "" }))
      else rejection (unmarshal text error_slots body (record { error = "" })).0.error

  -- doAttempt, from the return of http.Client.Do
  unfoldable pub classify : Exchange → AttemptResult
  unfolding is_definitely_not_sent unmarshal
  classify (send_error e) = if is_definitely_not_sent e then classed "fail" else classed "unknown"
  classify (answered status (err m)) = classed "unknown"
  classify (answered status (ok body)) = classify_body status (slice body 0 (2 ^ 20))

  -- doAttempt, up to http.Client.Do; `none` is the panic on an unknown operation, and on a URL that does
  -- not parse
  unfoldable pub build_request : (String → Option String) → Node → Op → Bool → Option HttpRequest
  build_request url_path node op no_proxy =
      let base = node.url ++ "/kv/" ++ op.key in
      if op.op == "put"
      then new_request url_path "PUT" base
          (some (text.print (obj (field "value" (str op.value) end)))) no_proxy
      else if op.op == "get"
      then new_request url_path "GET" base none no_proxy
      else if op.op == "delete"
      then new_request url_path "DELETE" base none no_proxy
      else if op.op == "cas"
      then new_request url_path "POST" (base ++ "/cas")
          (some (
            text.print (
              obj (
                field "expect" (string_pointer_json op.expect)
                  (field "value" (str op.value) end)))))
          no_proxy
      else none
