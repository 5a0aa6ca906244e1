-- ===== src/System/Records.antt =====
-- What the record of a call that ends in the system says.
use quorum_kv.Prelude.{eq_iff, ◌≢◌, ◌≡◌, ap, ◌∙◌, sym, ℕ, ◌≤◌, ◌<◌, arith, inl, inr}
use quorum_kv.Prelude.Int.{pos, max_int64}
use quorum_kv.Json.{JsonText}
use quorum_kv.Kv.Command.{Result}
use quorum_kv.Kv.Spec.{kind_of}
use quorum_kv.History.{Op, outcome_ok, outcome_failed, outcome_unknown}
use quorum_kv.Checker.Operations.{input_of}
use quorum_kv.Checker.Horizon.{InRange}
use quorum_kv.Checker.Record.{Lost}
use quorum_kv.Contract.Bodies.{classify-result}
use quorum_kv.Harness.Invoke.{Client, Round, finished}
use quorum_kv.Harness.Invoke.Attempts.{outcome_of}
use quorum_kv.Harness.Invoke.Records.{Recording, turn-Recording}
use quorum_kv.System.{System, Call, Attempted, Answered}
use quorum_kv.System.Invariant.{Told}

abbrev pub sharing : System → Call → Client
sharing s call = record call.client { recorded = s.history }

pub Attempted-Recording :
    (s : System) (call : Call) (round : Round) (c : Client) (done : Op)
    → Attempted s call round (finished c done)
    → Recording (sharing s call) call.op round c done
Attempted-Recording s call round c done a =
    turn-Recording (sharing s call) call.op call.pin call.node round c done a.turned

pub start_of :
    (s : System) (call : Call) (round : Round) (c : Client) (done : Op)
    → Attempted s call round (finished c done)
    → done.start_ns ≡ pos call.start
start_of s call round c done a = (Attempted-Recording s call round c done a).start_ns ∙ a.began

pub attempt-InRange :
    (s : System) (call : Call) (round : Round) (c : Client) (done : Op)
    → call.start ≤ s.now
    → s.now < max_int64
    → Attempted s call round (finished c done)
    → InRange done
attempt-InRange s call round c done l m a =
    let rec = Attempted-Recording s call round c done a in
    (rw (start_of s call round c done a) (omega arith), rw rec.end_ns (omega (arith, m, a.ended)))

outcome_of-unknown : (r : Round) → r.result.class ≡ "unknown" → outcome_of r ≡ outcome_unknown
outcome_of-unknown r h = rw h

pub outcome_of-ok : (r : Round) → r.result.class ≡ "ok" → outcome_of r ≡ outcome_ok
outcome_of-ok r h = rw h

outcome_of-fail : (r : Round) → r.result.class ≡ "fail" → outcome_of r ≡ outcome_failed
outcome_of-fail r h = rw h

pub unknown_outcome :
    (s : System) (call : Call) (round : Round) (c : Client) (done : Op)
    → round.result.class ≡ "unknown"
    → Attempted s call round (finished c done)
    → done.outcome ≡ outcome_unknown
unknown_outcome s call round c done h a =
    (Attempted-Recording s call round c done a).outcome ∙ outcome_of-unknown round h

unknown_not_ok : outcome_unknown ≢ outcome_ok
unknown_not_ok = ground (arith, eq_iff outcome_unknown outcome_ok)

-- A record of an unknown outcome is true of whatever took effect after the call.
pub unknown-Told :
    (call : Call) (t : ℕ) (r : Result) (done : Op)
    → call.start ≤ t
    → input_of done ≡ input_of call.op
    → done.start_ns ≡ pos call.start
    → done.outcome ≡ outcome_unknown
    → Told call t r done
unknown-Told call t r done l i b o = record {
  input = i;
  truthful = record {
    called = rw b (omega arith);
    outcome = inr o;
    returned = λ e. absurd (unknown_not_ok (sym o ∙ e));
    ok = λ e. absurd (unknown_not_ok (sym o ∙ e));
    present = λ e. absurd (unknown_not_ok (sym o ∙ e));
    ret_val = λ e. absurd (unknown_not_ok (sym o ∙ e));
  };
}

-- A lost answer.
pub lost-Told :
    (s : System) (call : Call) (t : ℕ) (r : Result) (round : Round) (c : Client) (done : Op)
    → call.start ≤ t
    → round.result.class ≡ "unknown"
    → Attempted s call round (finished c done)
    → Told call t r done
lost-Told s call t r round c done l h a =
    unknown-Told call t r done l (Attempted-Recording s call round c done a).input
      (start_of s call round c done a) (unknown_outcome s call round c done h a)

-- A response that arrives carries the result.
pub answer-Told :
    (text : JsonText) (s : System) (call : Call) (t : ℕ) (r : Result) (round : Round) (c : Client)
    (done : Op)
    → call.start ≤ t
    → Answered text t r round
    → Attempted s call round (finished c done)
    → Told call t r done
answer-Told text s call t r round c done l w a =
    let rec = Attempted-Recording s call round c done a in
    let q = w.result ∙ classify-result text r w.whole in
    let k : round.result.class ≡ "ok" = ap (λ x. x.class) q in
    record {
      input = rec.input;
      truthful = record {
        called = rw (start_of s call round c done a) (omega arith);
        outcome = inl (rec.outcome ∙ outcome_of-ok round k);
        returned = λ e. rw rec.end_ns w.later;
        ok = λ e. rec.ok k ∙ ap (λ x. x.ok) q;
        present = λ e. rec.present k ∙ ap (λ x. x.present) q;
        ret_val = λ e. rec.ret_val k ∙ ap (λ x. x.val) q;
      };
    }

-- A definite failure.
pub fail-Lost :
    (s : System) (call : Call) (round : Round) (c : Client) (done : Op)
    → round.result.class ≡ "fail"
    → Attempted s call round (finished c done)
    → Lost done
fail-Lost s call round c done h a =
    let rec = Attempted-Recording s call round c done a in
    record {
      outcome = inl (rec.outcome ∙ outcome_of-fail round h);
      known = (call.kind, ap (λ i. kind_of i.op) rec.input ∙ call.known);
    }
