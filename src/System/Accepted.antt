-- ===== src/System/Accepted.antt =====
-- The checker on the records of the system.
use quorum_kv.Prelude.{
  ◌≡◌, refl, ap, ◌∙◌, ◌≢◌, true, Option, none, some, List, [], ◌∷◌, map, ◌++◌, All, All-append, ℕ,
  ◌≤◌, arith, inr,
}
use mathlib.Core.Path.{subst⁻¹}
use quorum_kv.Prelude.Int.{pos, ◌≤ℤ◌}
use quorum_kv.Json.{JsonText}
use quorum_kv.Kv.Command.{encode}
use quorum_kv.Kv.Spec.{kind_of}
use quorum_kv.Kv.Fsm.Replay.{log_of}
use quorum_kv.History.{Op}
use quorum_kv.Checker.Operations.{to_operations}
use quorum_kv.Checker.Record.{Committed, Truthful, AllTruthful, InOrder, Lost, ops_of}
use quorum_kv.Checker.Complete.{Recorded}
use quorum_kv.Checker.Check.{Porcupine, CheckResult, check, check_accepts}
use quorum_kv.Harness.Invoke.{is_some}
use quorum_kv.System.{System, Entry, Adrift, Reach, IsQuiet, IsClosed}
use quorum_kv.System.Lists.{Sorted, records_of}
use quorum_kv.System.Invariant.{
  Sound, Entered, Drifting, ToldIf, committed, bytes_of, result_of, time_of, done_of,
}
use quorum_kv.Contract.Wire.{asked}
use quorum_kv.System.Asked.{asked-input, asked_request, replay-asked}
use quorum_kv.System.Kept.{reach-Sound}

-- The entry of a call that has ended, as an operation that took effect.
record Done (text : JsonText) (e : Entry) (o : Option Op) : Type 0 where
  own : Committed
  closing : o ≡ some own.op
  bytes : encode text (asked own.kind own.op) ≡ bytes_of text e
  truthful : Truthful own e.result
  time : own.time ≡ pos e.time

Done-closed :
    (text : JsonText) (e : Entry) (o : Option Op)
    → ToldIf e.call e.time e.result o
    → is_some o ≡ true
    → Done text e o
Done-closed text e none t h = absurd cc
Done-closed text e (some d) t h = record {
  own = committed e.call e.time d t.input;
  closing = refl;
  bytes = ap (encode text) (asked-input e.call.kind e.call.op d t.input);
  truthful = t.truthful;
  time = refl;
}

-- The log of a quiet system.
record DoneLog (text : JsonText) (l : List Entry) : Type 0 where
  own : List Committed
  ops : ops_of own ≡ records_of l
  bytes : log_of text (map asked_request own) ≡ map (bytes_of text) l
  truthful : AllTruthful own (map result_of l)
  times : map (λ c. c.time) own ≡ map (λ e. pos e.time) l

DoneLog-cons :
    (text : JsonText) (e : Entry) (l : List Entry)
    → Done text e e.closing
    → DoneLog text l
    → DoneLog text (e ∷ l)
DoneLog-cons text e l d h = record {
  own = d.own ∷ h.own;
  ops = rw (d.closing, h.ops) refl;
  bytes = rw (d.bytes, h.bytes) refl;
  truthful = (d.truthful, h.truthful);
  times = rw (d.time, h.times) refl;
}

done_log :
    (text : JsonText) (now : ℕ) (l : List Entry)
    → All (Entered now) l
    → All IsClosed l
    → DoneLog text l
done_log text now [] k c = record {
  own = [];
  ops = refl;
  bytes = refl;
  truthful = tt;
  times = refl;
}
done_log text now (e ∷ l) k c =
    DoneLog-cons text e l (Done-closed text e e.closing k.0.told c.0) (done_log text now l k.1 c.1)

later_times :
    (t : ℕ) (cs : List Committed) (l : List Entry)
    → map (λ c. c.time) cs ≡ map (λ e. pos e.time) l
    → All (λ u. t ≤ u) (map time_of l)
    → All (λ c. pos t ≤ℤ c.time) cs
later_times t [] l q h = tt
later_times t (c ∷ cs) [] q h = absurd cc
later_times t (c ∷ cs) (e ∷ l) q h =
    let own : c.time ≡ pos e.time = cc in
    let rest : map (λ c. c.time) cs ≡ map (λ e. pos e.time) l = cc in
    (rw own (omega (arith, h.0)), later_times t cs l rest h.1)

in_order :
    (cs : List Committed) (l : List Entry)
    → map (λ c. c.time) cs ≡ map (λ e. pos e.time) l
    → Sorted (map time_of l)
    → InOrder cs
in_order [] l q h = tt
in_order (c ∷ cs) [] q h = absurd cc
in_order (c ∷ cs) (e ∷ l) q h =
    let own : c.time ≡ pos e.time = cc in
    let rest : map (λ c. c.time) cs ≡ map (λ e. pos e.time) l = cc in
    (
      subst⁻¹ (λ t. All (λ d. t ≤ℤ d.time) cs) own (later_times e.time cs l rest h.0),
      in_order cs l rest h.1,
    )

Lost-adrift : (now : ℕ) (ds : List Adrift) → All (Drifting now) ds → All Lost (map done_of ds)
Lost-adrift now [] h = tt
Lost-adrift now (a ∷ ds) h = (
  record {
    outcome = inr h.0.outcome;
    known = (a.call.kind, ap (λ i. kind_of i.op) h.0.input ∙ a.call.known);
  },
  Lost-adrift now ds h.1,
)

Recorded-quiet : (text : JsonText) (s : System) → Sound text s → IsQuiet s → Recorded text s.history
Recorded-quiet text s h q =
    let l = done_log text s.now s.log h.entered q.all_closed in
    let (end, runs) = replay-asked text l.own s.fsm (map result_of s.log) (rw l.bytes h.replayed) in
    record {
      log = l.own;
      lost = map done_of s.adrift ++ s.failed;
      last = end;
      results = map result_of s.log;
      replayed = runs;
      truthful = l.truthful;
      in_order = in_order l.own s.log l.times h.sorted;
      never =
          All-append Lost (map done_of s.adrift) s.failed (Lost-adrift s.now s.adrift h.drifting)
            h.failed;
      recorded = rw l.ops h.recorded;
      in_range = h.in_range;
    }

-- Once no attempt waits and each call in the log has its record, Check says of what the clients of the
-- system recorded that it is linearizable, unless the time runs out: however calls interleave, proposals
-- are committed after their clients gave them up, answers are lost and attempts are repeated.
pub system-linearizable :
    (text : JsonText) (p : Porcupine) (s : System) (timeout : ℕ)
    → Reach text s
    → IsQuiet s
    → p.check_operations (to_operations s.history) timeout ≢ CheckResult.unknown
    → (check p s.history timeout).linearizable ≡ true
system-linearizable text p s timeout r q in_time =
    check_accepts text p s.history timeout (Recorded-quiet text s (reach-Sound text s r) q) in_time
