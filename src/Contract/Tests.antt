-- ===== src/Contract/Tests.antt =====
-- The statements about the contract at concrete inputs.
use quorum_kv.Prelude.{
  some, arith, String, ◌≡◌, refl, Bool, true, false, none, List, [], ◌∷◌, ok, err,
}
use quorum_kv.Json.{Bytes}
use quorum_kv.Json.Postfix
use quorum_kv.Json.Decode.{unmarshal}
use quorum_kv.Json.Postfix.{postfix}
use quorum_kv.Server.Node.{Config, leader_http_url}
use quorum_kv.Server.Http.{
  Request, not_leader, Future, failed, responded, Forward, Node, handle_kv, proxy_or_reject,
}
use quorum_kv.Harness.Client.{classify}
use Prim.Native.Nat.{◌^◌}
use Prim.Native.String.{slice}
use quorum_kv.Prelude.Int.{pos}
use quorum_kv.Strings.{contains}
use quorum_kv.History.{Op}
use quorum_kv.Kv.Spec.{Kind}
use quorum_kv.Server.Http.{write_err, err_bad_req}
use quorum_kv.Harness.Nodes as Client
use quorum_kv.Harness.Client.{HttpRequest, build_request}
use quorum_kv.Contract.Wire.{
  sent_body, asked, received, Proposes, build_request-Proposes, slash_key,
}
use quorum_kv.Contract.Definite.{IsFail}
use quorum_kv.Contract.Unapplied.{is_redirect}
use quorum_kv.Contract.Cluster.{lost, definite_failure}
use quorum_kv.Contract.Guard.{forwarded_once}
use Prim.Native.String.{◌++◌}
use quorum_kv.Prelude.{Option, ap, ◌∙◌}
use quorum_kv.Strings.{after_prefix}
use quorum_kv.Strings.Laws.{after_prefix-append}
use quorum_kv.Contract.Paths.{is_plain_from, is_unreserved, ReadsPlain}
use quorum_kv.Contract.Wire.{append_assoc_url}

-- What net/url reads of a URL of the node n1 without query, fragment or escape.
abbrev reads_path : String → Option String
reads_path u = after_prefix u "http://n1"

reads_path-ReadsPlain : ReadsPlain reads_path "http://n1"
reads_path-ReadsPlain = record {
  key = λ k plain. after_prefix-append "http://n1" ("/kv/" ++ k);
  cas = λ k plain.
      ap reads_path (append_assoc_url "http://n1" k)
      ∙ after_prefix-append "http://n1" ("/kv/" ++ (k ++ "/cas"));
}

-- The log of the cluster.
abbrev Log : Type 0
Log = List Bytes

abbrev config_of : String → Config
config_of id = record {
  node_id = id;
  data_dir = "";
  raft_bind = "";
  raft_advertise = "";
  peers = [];
  bootstrap = false;
}

abbrev follower_propose : Bytes → Log → Future × Log
follower_propose b w = (failed not_leader, w)

abbrev leader_propose : Bytes → Log → Future × Log
leader_propose b w = (responded none, b ∷ w)

-- A node that leads, and one that follows and has lost its leader.
abbrev two_nodes : Bool → Node Log
two_nodes true = record {
  raft = record { propose = leader_propose; leader_id = λ w. "n1" };
  cfg = config_of "n1";
}
two_nodes false = record {
  raft = record { propose = follower_propose; leader_id = λ w. "" };
  cfg = config_of "n2";
}

abbrev cut_off : Forward Log
cut_off url r w = (err "connection refused", w)

two_nodes-redirects :
    (i : Bool) (b : Bytes) (w : Log)
    → is_redirect ((two_nodes i).raft.propose b w).0 ≡ true
    → ((two_nodes i).raft.propose b w).1 ≡ w
two_nodes-redirects true b w h = ground arith
two_nodes-redirects false b w h = refl

abbrev get_a : Request
get_a = record { method = "GET"; path = "/kv/a"; no_proxy = ""; forwarded = ""; body = ok "" }

get_a-IsFail : IsFail postfix (handle_kv postfix cut_off (λ url. true) (two_nodes false) get_a []).0
unfolding handle_kv proxy_or_reject leader_http_url classify unmarshal Postfix.parse Postfix.print
get_a-IsFail = record { whole = refl; class = refl }

definite_failure_example :
    (handle_kv postfix cut_off (λ url. true) (two_nodes false) get_a []).1 ≡ []
definite_failure_example =
    definite_failure postfix cut_off (λ url. true) two_nodes (λ w. w) two_nodes-redirects
      (λ url r w. lost "connection refused" w) false get_a [] get_a-IsFail

forwarded_once_example :
    handle_kv postfix cut_off (λ url. true) (two_nodes false) (record get_a { forwarded = "1" }) []
    ≡ handle_kv postfix
        (λ url r w. (err "", w))
        (λ url. true)
        (two_nodes false)
        (record get_a { forwarded = "1" })
        []
forwarded_once_example =
    forwarded_once postfix cut_off (λ url r w. (err "", w)) (λ url. true) (two_nodes false)
      (record get_a { forwarded = "1" }) [] refl

abbrev harness_node : Client.Node
harness_node = record { id = "n1"; url = "http://n1"; container = "c"; ip = "" }

abbrev cas_op : String → Op
cas_op key = record {
  client = pos 1;
  op = "cas";
  key = key;
  value = "2";
  expect = some "1";
  start_ns = pos 0;
  end_ns = pos 0;
  outcome = "";
  ok = false;
  present = false;
  ret_val = "";
  node = "";
}

abbrev get_sent : HttpRequest
get_sent = record { method = "GET"; url = ""; path = ""; body = none; no_proxy = false }

cas_op-whole :
    (key : String)
    → slice (sent_body postfix Kind.cas (cas_op key)) 0 (2 ^ 20)
      ≡ sent_body postfix Kind.cas (cas_op key)
unfolding Postfix.print
cas_op-whole key = refl

build_request-Proposes_example :
    Proposes postfix reads_path cut_off
      (λ url. true)
      (two_nodes true)
      harness_node
      "/kv/a/cas"
      (asked Kind.cas (cas_op "a"))
      []
      (build_request postfix reads_path harness_node (cas_op "a") false)
unfolding contains is_plain_from is_unreserved
build_request-Proposes_example =
    build_request-Proposes postfix reads_path cut_off (λ url. true) (two_nodes true) Kind.cas
      harness_node (cas_op "a") false [] reads_path-ReadsPlain refl refl refl refl
      (cas_op-whole "a")

slash_key_example :
    Proposes postfix reads_path cut_off
      (λ url. true)
      (two_nodes true)
      harness_node
      "/kv/a/b/cas"
      (asked Kind.cas (cas_op "a/b"))
      []
      (build_request postfix reads_path harness_node (cas_op "a/b") false)
    × (handle_kv postfix cut_off
          (λ url. true)
          (two_nodes true)
          (received (record get_sent { path = "/kv/a/b" }))
          []
        ≡ (write_err postfix 400 err_bad_req "key must not contain '/'", []))
unfolding contains is_plain_from is_unreserved
slash_key_example =
    slash_key postfix reads_path cut_off (λ url. true) (two_nodes true) harness_node (cas_op "a/b")
      false get_sent [] reads_path-ReadsPlain refl refl refl refl refl (cas_op-whole "a/b")
