-- ===== src/Contract/Wire.antt =====
-- What a client sends and what the handler proposes.
use quorum_kv.Prelude.{
  String, ◌≡◌, refl, ap, ◌∙◌, Bool, true, false, Option, none, some, ◌==◌, if◌then◌else◌, ok,
}
use Prim.Native.Nat.{◌^◌}
use Prim.Native.String.{slice, ◌++◌}
use quorum_kv.Json.{JsonText, Bytes}
use quorum_kv.Kv.Command.{Command, op_get, op_delete}
use quorum_kv.Server.Http.{
  Request, Forward, Node, write_err, apply, handle_key, cas_or_key, handle_kv, cas_key, err_bad_req,
}
use quorum_kv.Contract.Paths.{is_plain, ReadsPlain}
use quorum_kv.Contract.Bodies.{put_body-read, cas_body-read}
use quorum_kv.Strings.{contains}
use text.Mathlib.TextLemmas.{append_assoc}
use quorum_kv.Strings.{cut_suffix}
use quorum_kv.Strings.Laws.{trim-prefix, cut-suffix, suffix_filled}
use quorum_kv.Json.{obj, field, str, end}
use quorum_kv.Kv.Command.{op_put, op_cas, string_pointer_json}
use quorum_kv.Kv.Spec.{Kind, kind_of, kind_of-name_of}
use quorum_kv.Kv.Spec.Kind.{put, get, delete, cas}
use quorum_kv.History.{Op}
use quorum_kv.Harness.Nodes as Client
use quorum_kv.Harness.Client.{HttpRequest, new_request, build_request}

-- The body, and the path behind the node's address, of the request for an operation of each kind.
abbrev pub sent_body : JsonText → Kind → Op → Bytes
sent_body text put o = text.print (obj (field "value" (str o.value) end))
sent_body text get o = ""
sent_body text delete o = ""
sent_body text cas o =
    text.print
      (obj (field "expect" (string_pointer_json o.expect) (field "value" (str o.value) end)))

abbrev pub sent_path : Kind → Op → String
sent_path cas o = "/kv/" ++ (o.key ++ "/cas")
sent_path k o = "/kv/" ++ o.key

-- The command that each kind of operation asks for.
abbrev pub asked : Kind → Op → Command
asked put o = record { op = op_put; key = o.key; value = o.value; expect = none }
asked get o = record { op = op_get; key = o.key; value = ""; expect = none }
asked delete o = record { op = op_delete; key = o.key; value = ""; expect = none }
asked cas o = record { op = op_cas; key = o.key; value = o.value; expect = o.expect }

abbrev pub body_or_empty : Option Bytes → Bytes
body_or_empty none = ""
body_or_empty (some b) = b

-- What the handler reads of a request that reaches it.
abbrev pub received : HttpRequest → Request
received q = record {
  method = q.method;
  path = q.path;
  no_proxy = if q.no_proxy then "1" else "";
  forwarded = "";
  body = ok (body_or_empty q.body);
}

pub append_assoc_url :
    (a key : String) → (a ++ ("/kv/" ++ key)) ++ "/cas" ≡ a ++ ("/kv/" ++ (key ++ "/cas"))
append_assoc_url a key =
    append_assoc a ("/kv/" ++ key) "/cas" ∙ ap (λ x. a ++ x) (append_assoc "/kv/" key "/cas")

module _ {W : Type 0} (text : JsonText) (url_path : String → Option String) (forward : Forward W)
    (parses_url : String → Bool) (n : Node W) where
  -- A request was built, its URL is the path under the node's address, and the handler that reads it
  -- proposes the command.
  pub data Proposes (node : Client.Node) (path : String) (c : Command) (w : W)
      : Option HttpRequest → Type 0 where
    proposes :
        (q : HttpRequest)
        → q.url ≡ node.url ++ path
        → handle_kv text forward parses_url n (received q) w
          ≡ apply text forward parses_url n (received q) c w
        → Proposes node path c w (some q)

  abbrev plain_sent : Client.Node → Op → Bool → String → Option Bytes → HttpRequest
  plain_sent node o no_proxy method body = record {
    method = method;
    url = node.url ++ "/kv/" ++ o.key;
    path = "/kv/" ++ o.key;
    body = body;
    no_proxy = no_proxy;
  }

  -- A request with a plain key that is no POST is not one for a cas.
  plain_request :
      (r : Request) (key : String) (raw : Bytes) (w : W) (found : Option String)
      → (r.method == "POST") ≡ false
      → cas_or_key text forward parses_url n r key raw w (cas_key text forward parses_url n r found)
        ≡ handle_key text forward parses_url n r key raw w
  plain_request r key raw w none h = refl
  plain_request r key raw w (some k) h = rw h

  -- A request at the path of a key.
  abbrev at_key : HttpRequest → String → HttpRequest
  at_key q key = record q { path = "/kv/" ++ key }

  -- The handler of a plain key, for a method but POST and a body within the limit.
  handle_kv-plain :
      (q : HttpRequest) (key : String) (w : W)
      → (key == "") ≡ false
      → contains key b'/' ≡ false
      → (q.method == "POST") ≡ false
      → slice (body_or_empty q.body) 0 (2 ^ 20) ≡ body_or_empty q.body
      → handle_kv text forward parses_url n (received (at_key q key)) w
        ≡ handle_key text forward parses_url n
            (received (at_key q key))
            key
            (body_or_empty q.body)
            w
  unfolding handle_kv
  handle_kv-plain q key w filled plain not_post whole =
      rw (trim-prefix key, filled, whole)
        (plain_request (received (at_key q key)) key (body_or_empty q.body) w
          (cut_suffix key "/cas") not_post)

  cas-Proposes :
      (node : Client.Node) (o : Op) (no_proxy : Bool) (w : W)
      → ReadsPlain url_path node.url
      → kind_of o.op ≡ some cas
      → is_plain o.key ≡ true
      → slice (sent_body text cas o) 0 (2 ^ 20) ≡ sent_body text cas o
      → Proposes node
          (sent_path cas o)
          (asked cas o)
          w
          (build_request text url_path node o no_proxy)
  unfolding build_request new_request
  cas-Proposes node o no_proxy w reads h plain whole =
      let q : HttpRequest = record {
        method = "POST";
        url = (node.url ++ ("/kv/" ++ o.key)) ++ "/cas";
        path = "/kv/" ++ (o.key ++ "/cas");
        body = some (sent_body text cas o);
        no_proxy = no_proxy;
      } in
      rw (kind_of-name_of cas o.op h, new_request, reads.cas o.key plain)
        (proposes q (append_assoc_url node.url o.key) (
          unfold handle_kv in
          rw (
            trim-prefix (o.key ++ "/cas"),
            suffix_filled o.key,
            cut-suffix o.key,
            whole,
            cas_body-read text o.expect o.value,
          )))

  -- The request that a client builds for an operation of a known kind goes to the operation's path, and
  -- the handler that reads it proposes just the command that was asked for: for a key of unreserved
  -- characters that is not empty, which net/url reads as it is under the node's address, and a body
  -- within the limit of 1 MiB.
  pub build_request-Proposes :
      (k : Kind) (node : Client.Node) (o : Op) (no_proxy : Bool) (w : W)
      → ReadsPlain url_path node.url
      → kind_of o.op ≡ some k
      → (o.key == "") ≡ false
      → is_plain o.key ≡ true
      → contains o.key b'/' ≡ false
      → slice (sent_body text k o) 0 (2 ^ 20) ≡ sent_body text k o
      → Proposes node (sent_path k o) (asked k o) w (build_request text url_path node o no_proxy)
  unfolding build_request new_request
  build_request-Proposes put node o no_proxy w reads h filled plain flat whole =
      let q = plain_sent node o no_proxy "PUT" (some (sent_body text put o)) in
      rw (kind_of-name_of put o.op h, new_request, reads.key o.key plain)
        (proposes q refl (
          handle_kv-plain q o.key w filled flat refl whole
          ∙ unfold handle_key in rw (flat, put_body-read text o.value)))
  build_request-Proposes get node o no_proxy w reads h filled plain flat whole =
      let q = plain_sent node o no_proxy "GET" none in
      rw (kind_of-name_of get o.op h, new_request, reads.key o.key plain)
        (proposes q refl
          (handle_kv-plain q o.key w filled flat refl whole ∙ unfold handle_key in rw flat))
  build_request-Proposes delete node o no_proxy w reads h filled plain flat whole =
      let q = plain_sent node o no_proxy "DELETE" none in
      rw (kind_of-name_of delete o.op h, new_request, reads.key o.key plain)
        (proposes q refl
          (handle_kv-plain q o.key w filled flat refl whole ∙ unfold handle_key in rw flat))
  build_request-Proposes cas node o no_proxy w reads h filled plain flat whole =
      cas-Proposes node o no_proxy w reads h plain whole

  handle_kv-slash :
      (q : HttpRequest) (key : String) (w : W)
      → (key == "") ≡ false
      → contains key b'/' ≡ true
      → (q.method == "POST") ≡ false
      → handle_kv text forward parses_url n (received (at_key q key)) w
        ≡ (write_err text 400 err_bad_req "key must not contain '/'", w)
  unfolding handle_kv
  handle_kv-slash q key w filled slash not_post =
      let cut : Request = record (received (at_key q key)) {
        body = ok (slice (body_or_empty q.body) 0 (2 ^ 20));
      } in
      rw (trim-prefix key, filled)
        (plain_request cut key (slice (body_or_empty q.body) 0 (2 ^ 20)) w (cut_suffix key "/cas")
            not_post
          ∙ unfold handle_key in rw slash)

  -- For a key of segments of unreserved characters with a '/' between them, which net/url reads as it is
  -- under the node's address (and a body within the limit), the handler proposes the cas that a client
  -- asks for, while it turns down every request at the path of that key by another method than POST.
  pub slash_key :
      (node : Client.Node) (o : Op) (no_proxy : Bool) (q : HttpRequest) (w : W)
      → ReadsPlain url_path node.url
      → kind_of o.op ≡ some cas
      → (o.key == "") ≡ false
      → is_plain o.key ≡ true
      → contains o.key b'/' ≡ true
      → (q.method == "POST") ≡ false
      → slice (sent_body text cas o) 0 (2 ^ 20) ≡ sent_body text cas o
      → Proposes node
          (sent_path cas o)
          (asked cas o)
          w
          (build_request text url_path node o no_proxy)
        × (handle_kv text forward parses_url n (received (record q { path = "/kv/" ++ o.key })) w
            ≡ (write_err text 400 err_bad_req "key must not contain '/'", w))
  slash_key node o no_proxy q w reads h filled plain slash not_post whole = (
    cas-Proposes node o no_proxy w reads h plain whole,
    handle_kv-slash q o.key w filled slash not_post,
  )
