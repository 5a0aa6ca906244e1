-- ===== src/System/Tests.antt =====
-- A run of the system: a put is committed and answered, another is given up by its client and
-- committed behind it, and a read sees the latter.
use quorum_kv.Prelude.{sym, String, ◌≡◌, refl, true, false, none, some, [], ◌∷◌, ℕ, arith}
use quorum_kv.Prelude.Int.{pos}
use quorum_kv.Json.Postfix
use quorum_kv.Json.Postfix.{postfix}
use quorum_kv.GoMap.{made}
use quorum_kv.Kv.Command.{Result, encode}
use quorum_kv.Kv.Spec.{Kind}
use quorum_kv.Kv.Fsm.{Fsm, apply}
use quorum_kv.History.{Op}
use quorum_kv.Checker.Operations.{to_operations}
use quorum_kv.Checker.Check.{check, CheckResult}
use quorum_kv.Checker.Scan.{scan, verdict}
use quorum_kv.Harness.Nodes.{Node}
use quorum_kv.Harness.Client.{classed}
use quorum_kv.Harness.Invoke.{Client, Round, turn, note_seen}
use quorum_kv.System.{System, Call, Entry, init, closed, Step, Reach, IsQuiet, Answered}
use quorum_kv.Contract.Bodies.{classify-result}
use quorum_kv.System.Places.{Removes, Replaces}
use quorum_kv.System.Invariant.{Sound}
use quorum_kv.System.Kept.{reach-Sound}
use quorum_kv.System.Accepted.{system-linearizable}

abbrev n1 : Node
n1 = record { id = "n1"; url = "http://n1"; container = "c1"; ip = "10.0.0.1" }

abbrev client : Client
client = record { id = pos 1; nodes = n1 ∷ []; seq = 0; last_seen = []; recorded = [] }

abbrev asking : String → String → Op
asking op value = record {
  client = pos 1;
  op = op;
  key = "k";
  value = value;
  expect = none;
  start_ns = pos 0;
  end_ns = pos 0;
  outcome = "";
  ok = false;
  present = false;
  ret_val = "";
  node = "";
}

abbrev put_of : String → Call
put_of v = record {
  client = client;
  op = asking "put" v;
  pin = none;
  node = n1;
  kind = Kind.put;
  known = refl;
  start = 0;
}

abbrev get_call : Call
get_call = record {
  client = client;
  op = asking "get" "";
  pin = none;
  node = n1;
  kind = Kind.get;
  known = refl;
  start = 2;
}

abbrev ack : Result
ack = record { ok = true; present = false; value = "" }

abbrev seen : Result
seen = record { ok = true; present = true; value = "b" }

abbrev holding : String → Fsm
holding v = record { contents = made (("k", v) ∷ []) }

abbrev ok_round : ℕ → ℕ → Result → Round
ok_round s e r = record {
  start_ns = pos s;
  end_ns = pos e;
  result = record { class = "ok"; ok = r.ok; present = r.present; val = r.value };
  late = false;
}

abbrev lost_round : Round
lost_round = record { start_ns = pos 0; end_ns = pos 1; result = classed "unknown"; late = false }

abbrev acked : Op
acked = record (asking "put" "a") { end_ns = pos 1; outcome = "ok"; ok = true; node = "n1" }

abbrev given_up : Op
given_up = record (asking "put" "b") { end_ns = pos 1; outcome = "unknown"; node = "n1" }

abbrev read_b : Op
read_b = record (asking "get" "") {
  start_ns = pos 2;
  end_ns = pos 3;
  outcome = "ok";
  ok = true;
  present = true;
  ret_val = "b";
  node = "n1";
}

abbrev entry_a : Entry
entry_a = record { call = put_of "a"; time = 1; result = ack; closing = none }

abbrev entry_b : Entry
entry_b = record { call = put_of "b"; time = 1; result = ack; closing = some given_up }

abbrev entry_get : Entry
entry_get = record { call = get_call; time = 2; result = seen; closing = none }

abbrev sent : System
sent = record init { waiting = put_of "b" ∷ put_of "a" ∷ [] }

abbrev committed : System
committed = record sent {
  now = 1;
  fsm = holding "a";
  waiting = put_of "b" ∷ [];
  log = entry_a ∷ [];
}

abbrev answered : System
answered = record committed { log = closed entry_a acked ∷ []; history = acked ∷ [] }

abbrev abandoned : System
abandoned = record answered {
  waiting = [];
  adrift = record { call = put_of "b"; done = given_up } ∷ [];
  history = acked ∷ given_up ∷ [];
}

abbrev overtaken : System
overtaken = record abandoned {
  now = 2;
  fsm = holding "b";
  adrift = [];
  log = closed entry_a acked ∷ entry_b ∷ [];
}

abbrev last : System
last = record overtaken {
  now = 3;
  log = closed entry_a acked ∷ entry_b ∷ closed entry_get read_b ∷ [];
  history = acked ∷ given_up ∷ read_b ∷ [];
}

ack-Answered : Answered postfix 1 ack (ok_round 0 1 ack)
unfolding Postfix.print
ack-Answered = record {
  later = omega arith;
  whole = refl;
  result = sym (classify-result postfix ack refl);
}

seen-Answered : Answered postfix 2 seen (ok_round 2 3 seen)
unfolding Postfix.print
seen-Answered = record {
  later = omega arith;
  whole = refl;
  result = sym (classify-result postfix seen refl);
}

reach_committed : Reach postfix committed
unfolding apply encode Postfix.parse Postfix.print
reach_committed =
    Reach.later
      (Reach.later
        (Reach.later (Reach.later Reach.start (Step.send (put_of "a") refl))
          (Step.send (put_of "b") refl))
        (Step.tick 1 (omega arith)))
      (Step.commit (put_of "a") (put_of "b" ∷ []) (holding "a") ack
        (Removes.there _ _ _ (Removes.here _)) refl)

reach_answered : Reach postfix answered
unfolding turn note_seen
reach_answered = Reach.later reach_committed (
    Step.answer entry_a (closed entry_a acked ∷ []) (ok_round 0 1 ack)
      (record client { last_seen = ("k", some "a") ∷ []; recorded = acked ∷ [] }) acked refl
      (Replaces.here _) ack-Answered (record { began = refl; ended = omega arith; turned = refl }))

reach_overtaken : Reach postfix overtaken
unfolding apply encode Postfix.parse Postfix.print turn
reach_overtaken =
    Reach.later
      (Reach.later
        (Reach.later reach_answered (
          Step.give_up (put_of "b") [] lost_round
            (record client { recorded = acked ∷ given_up ∷ [] }) given_up (Removes.here _) refl
            (record { began = refl; ended = omega arith; turned = refl })))
        (Step.commit_adrift (record { call = put_of "b"; done = given_up }) [] (holding "b") ack
          (Removes.here _) refl))
      (Step.tick 1 (omega arith))

reach_last : Reach postfix last
unfolding apply encode Postfix.parse Postfix.print turn note_seen
reach_last =
    Reach.later
      (Reach.later
        (Reach.later (Reach.later reach_overtaken (Step.send get_call refl))
          (Step.commit get_call [] (holding "b") seen (Removes.here _) refl))
        (Step.tick 1 (omega arith)))
      (Step.answer entry_get last.log (ok_round 2 3 seen)
        (record client {
          last_seen = ("k", some "b") ∷ [];
          recorded = acked ∷ given_up ∷ read_b ∷ [];
        })
        read_b refl (Replaces.there _ _ _ (Replaces.there _ _ _ (Replaces.here _))) seen-Answered
        (record { began = refl; ended = omega arith; turned = refl }))

last-IsQuiet : IsQuiet last
last-IsQuiet = record { none_waiting = refl; all_closed = (refl, (refl, (refl, tt))) }

verdict_of_last : verdict (to_operations last.history) 60 ≡ CheckResult.ok
unfolding verdict to_operations
verdict_of_last = refl

reach-Sound_example : Sound postfix last
reach-Sound_example = reach-Sound postfix last reach_last

system-linearizable_example : (check scan last.history 60).linearizable ≡ true
system-linearizable_example =
    system-linearizable postfix scan last 60 reach_last last-IsQuiet (λ e. cc verdict_of_last)
