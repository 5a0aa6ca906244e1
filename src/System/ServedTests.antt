-- ===== src/System/ServedTests.antt =====
-- An attempt at a node that leads, in a system whose cluster is its state machine.
use quorum_kv.Prelude.{refl, ap, true, false, none, some, [], ◌∷◌, err, arith}
use quorum_kv.Prelude.Int.{pos}
use quorum_kv.Json.Postfix
use quorum_kv.Json.Postfix.{postfix}
use quorum_kv.Strings.{contains}
use quorum_kv.Kv.Command.{Result}
use quorum_kv.Kv.Spec.{Kind}
use quorum_kv.Kv.Fsm as Store
use quorum_kv.Kv.Fsm.{Fsm, Outcome, returned, panicked, new_fsm}
use quorum_kv.Kv.Fsm.Step.{view}
use quorum_kv.GoMap
use quorum_kv.Server.Node.{Config}
use quorum_kv.Server.Http.{Future, failed, responded, other, Forward, Node}
use quorum_kv.Harness.Nodes as Peers
use quorum_kv.Harness.Client.{build_request}
use quorum_kv.Harness.Invoke.{Client}
use quorum_kv.Contract.Attempt.{Leads}
use quorum_kv.System.{System, Call, init, Reach, Step}
use quorum_kv.System.Served.{Attempt, Attempt-Steps}
use Prim.Native.String.{◌++◌}
use quorum_kv.Prelude.{Option, String, ◌∙◌}
use quorum_kv.Strings.{after_prefix}
use quorum_kv.Strings.Laws.{after_prefix-append}
use quorum_kv.Contract.Paths.{is_plain_from, is_unreserved, ReadsPlain}
use quorum_kv.Contract.Wire.{append_assoc_url}

abbrev reads_path : String → Option String
reads_path u = after_prefix u "http://n1"

reads_path-ReadsPlain : ReadsPlain reads_path "http://n1"
reads_path-ReadsPlain = record {
  key = λ k plain. after_prefix-append "http://n1" ("/kv/" ++ k);
  cas = λ k plain.
      ap reads_path (append_assoc_url "http://n1" k)
      ∙ after_prefix-append "http://n1" ("/kv/" ++ (k ++ "/cas"));
}

abbrev config : Config
config = record {
  node_id = "n1";
  data_dir = "";
  raft_bind = "";
  raft_advertise = "";
  peers = [];
  bootstrap = false;
}

abbrev committed : Fsm → Outcome (Fsm × Result) → Future × Fsm
committed w (returned (f, r)) = (responded (some r), f)
committed w (panicked m) = (failed (other m), w)

abbrev leading : Node Fsm
leading = record {
  raft = record { propose = λ b w. committed w (Store.apply postfix w b); leader_id = λ w. "n1" };
  cfg = config;
}

abbrev unproxied : Forward Fsm
unproxied url r w = (err "connection refused", w)

leading-Leads : Leads postfix reads_path unproxied (λ url. true) leading (λ w. w)
leading-Leads b w f r e = record { after = f; replied = ap (committed w) e; holds = refl }

abbrev peer : Peers.Node
peer = record { id = "n1"; url = "http://n1"; container = "c1"; ip = "10.0.0.1" }

abbrev client : Client
client = record { id = pos 1; nodes = peer ∷ []; seq = 0; last_seen = []; recorded = [] }

-- A cas that expects the key absent, as it is.
abbrev first_cas : Call
first_cas = record {
  client = client;
  op = record {
    client = pos 1;
    op = "cas";
    key = "a";
    value = "1";
    expect = none;
    start_ns = pos 0;
    end_ns = pos 0;
    outcome = "";
    ok = false;
    present = false;
    ret_val = "";
    node = "";
  };
  pin = none;
  node = peer;
  kind = Kind.cas;
  known = refl;
  start = 3;
}

abbrev later : System
later = record init { now = 3 }

Attempt-Steps_example :
    Attempt postfix reads_path unproxied
      (λ url. true)
      leading
      (λ w. w)
      later
      first_cas
      new_fsm
      (build_request postfix reads_path peer first_cas.op false)
unfolding contains is_plain_from is_unreserved view GoMap.get Postfix.print
Attempt-Steps_example =
    Attempt-Steps postfix reads_path unproxied (λ url. true) leading (λ w. w) later first_cas false
      new_fsm reads_path-ReadsPlain leading-Leads
      (Reach.later Reach.start (Step.tick 3 (omega arith))) refl refl refl refl refl refl refl
