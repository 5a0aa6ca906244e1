-- ===== src/Checker/Tests.antt =====
-- The statements about the checker at concrete inputs, and runs of its code on recorded histories.
use quorum_kv.Prelude.{
  String, ◌≡◌, refl, true, false, none, some, List, [], ◌∷◌, eq_iff, arith, ◌↔◌, inl, inr, All,
}
use mathlib.Core.List.Perm
use quorum_kv.Prelude.Int.{pos}
use quorum_kv.Json.Postfix
use quorum_kv.Json.Postfix.{postfix}
use quorum_kv.Kv.Command.{op_put, op_get, encode}
use quorum_kv.Kv.Spec.{Kind}
use quorum_kv.Kv.Fsm.{apply}
use quorum_kv.Kv.Fsm.Replay.{replay}
use quorum_kv.GoMap.{made}
use quorum_kv.History.{Op, outcome_ok, outcome_unknown, outcome_failed}
use quorum_kv.Checker.Model.{step, init, KvInput, KvOutput}
use quorum_kv.Checker.Step.{reg, step-allows, Accepts-iff-Allowed, KnownAt, requests, Allowed}
use quorum_kv.Checker.Complete.{empty}
use quorum_kv.Kv.Spec.{answers}
use quorum_kv.Checker.Linearizable.{Accepts}
use quorum_kv.Checker.Operations.{open_ended, to_operations, horizon, to_operation}
use quorum_kv.Checker.Horizon.{InRange, Before, horizon-above}
use quorum_kv.Checker.Complete.{Recorded}
use quorum_kv.Checker.Check.{check, check_accepts, CheckResult}
use quorum_kv.Checker.Sound.{check-AllowedOrder, AllowedOrder, unclassified_read}
use quorum_kv.Checker.Scan.{scan, verdict}
use quorum_kv.Checker.Kept.{part}

abbrev put_a : Op
put_a = record {
  client = pos 1;
  op = op_put;
  key = "k";
  value = "a";
  expect = none;
  start_ns = pos 0;
  end_ns = pos 5;
  outcome = outcome_ok;
  ok = true;
  present = false;
  ret_val = "";
  node = "node1";
}

abbrev ghost : Op
ghost = record {
  client = pos 2;
  op = op_put;
  key = "k";
  value = "ghost";
  expect = none;
  start_ns = pos 10;
  end_ns = pos 15;
  outcome = outcome_unknown;
  ok = false;
  present = false;
  ret_val = "";
  node = "node2";
}

abbrev get_a : Op
get_a = record {
  client = pos 1;
  op = op_get;
  key = "k";
  value = "";
  expect = none;
  start_ns = pos 20;
  end_ns = pos 25;
  outcome = outcome_ok;
  ok = true;
  present = true;
  ret_val = "a";
  node = "node3";
}

-- The ghost is recorded behind the read that did not see it.
abbrev history : List Op
history = put_a ∷ get_a ∷ ghost ∷ []

horizon_of_history : horizon history ≡ pos 26
unfolding horizon
horizon_of_history = refl

run_of_history : (check scan history 60).linearizable ≡ true
unfolding check verdict
run_of_history = refl

history-InRange : All InRange history
history-InRange = omega arith

horizon-above_example : All (Before (horizon history)) history
horizon-above_example = horizon-above history history-InRange

history-Recorded : Recorded postfix history
unfolding replay apply encode Postfix.parse Postfix.print
history-Recorded = record {
  log =
      record { op = put_a; kind = Kind.put; known = refl; time = pos 3 }
      ∷ record { op = get_a; kind = Kind.get; known = refl; time = pos 22 }
      ∷ [];
  lost = ghost ∷ [];
  last = record { contents = made (("k", "a") ∷ []) };
  results =
      record { ok = true; present = false; value = "" }
      ∷ record { ok = true; present = true; value = "a" }
      ∷ [];
  replayed = refl;
  truthful = (
    record {
      called = omega arith;
      outcome = inl refl;
      returned = λ _. omega arith;
      ok = λ _. refl;
      present = λ _. refl;
      ret_val = λ _. refl;
    },
    (
      record {
        called = omega arith;
        outcome = inl refl;
        returned = λ _. omega arith;
        ok = λ _. refl;
        present = λ _. refl;
        ret_val = λ _. refl;
      },
      tt,
    ),
  );
  in_order = omega arith;
  never = (record { outcome = inr refl; known = (Kind.put, refl) }, tt);
  recorded = Perm.refl history;
  in_range = history-InRange;
}

verdict_of_history : verdict (to_operations history) 60 ≡ CheckResult.ok
unfolding verdict to_operations
verdict_of_history = refl

check_accepts_example : (check scan history 60).linearizable ≡ true
check_accepts_example =
    check_accepts postfix scan history 60 history-Recorded (λ e. cc verdict_of_history)

check-AllowedOrder_example : AllowedOrder "k" (part "k" (to_operations history))
check-AllowedOrder_example =
    check-AllowedOrder scan history 60 (refl, (refl, (refl, tt))) run_of_history "k"

abbrev odd_get : Op
odd_get = record get_a { outcome = "timeout" }

unclassified_read_example :
    (to_operation (pos 26) odd_get ≡ some (open_ended (pos 26) odd_get))
    × ((v : String)
        → (step
            (reg (some v))
            (open_ended (pos 26) odd_get).input
            (open_ended (pos 26) odd_get).output).0
          ≡ false)
unclassified_read_example =
    unclassified_read (pos 26) odd_get (ground (arith, eq_iff "timeout" outcome_failed))
      (ground (arith, eq_iff "timeout" outcome_unknown))
      (ground (arith, eq_iff "timeout" outcome_ok)) refl

abbrev stale : KvOutput
stale = record { unknown = false; ok = true; present = true; val = "old" }

abbrev get_input : KvInput
get_input = record { op = op_get; key = "k"; val = ""; expect = none }

step-allows_example : (step (reg (some "new")) get_input stale).0 ≡ false
step-allows_example = step-allows Kind.get get_input stale (some "new") refl

history_known : All (KnownAt "k") (to_operations history)
unfolding to_operations
history_known = ((Kind.put, refl, refl), ((Kind.get, refl, refl), ((Kind.put, refl, refl), tt)))

Accepts-iff-Allowed_example :
    Accepts init (to_operations history)
    ↔ Allowed "k"
        (to_operations history)
        history_known
        (answers empty (requests "k" (to_operations history) history_known))
Accepts-iff-Allowed_example = Accepts-iff-Allowed "k" empty (to_operations history) history_known
