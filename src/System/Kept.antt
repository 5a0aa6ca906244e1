-- ===== src/System/Kept.antt =====
-- Every step keeps what holds of the system, so it holds of each that is reached.
use quorum_kv.Prelude.{◌≡◌, refl, none, some, List, [], ◌∷◌, map, All, All-append, ◌≤◌, arith}
use mathlib.Core.List.{append-nil}
use mathlib.Core.List.Perm
use mathlib.Core.Path.{subst⁻¹}
use quorum_kv.Json.{JsonText}
use quorum_kv.Kv.Command.{Result, encode}
use quorum_kv.Kv.Fsm.{Fsm, returned, apply}
use quorum_kv.Kv.Fsm.Replay.{replay}
use quorum_kv.History.{Op}
use quorum_kv.Checker.Horizon.{InRange}
use quorum_kv.Harness.Invoke.{Client, Round, finished}
use quorum_kv.System.{
  System, Entry, Adrift, Call, command, applied, closed, init, Attempted, Step, Reach,
}
use quorum_kv.System.Places.{Removes, Replaces, Removes-All, Removes-Perm, Replaces-get}
use quorum_kv.System.Lists.{records_of, records_of-snoc, records_of-Replaces}
use quorum_kv.System.Shuffles.{Perm-recorded, Perm-moved, Perm-first, Perm-second, Perm-third}
use quorum_kv.System.Invariant.{Sound, Entered, Drifting, Waited, Told, done_of}
use quorum_kv.System.Records.{
  Attempted-Recording, attempt-InRange, unknown_outcome, unknown-Told, lost-Told, answer-Told,
  fail-Lost, start_of,
}
use quorum_kv.System.Steady.{Logged-applied, Logged-closed, Sound-tick}

Sound-waiting :
    (text : JsonText) (s : System) (calls : List Call)
    → All (Waited s.now) calls
    → Sound text s
    → Sound text (record s { waiting = calls })
Sound-waiting text s calls w h = record {
  replayed = h.replayed;
  sorted = h.sorted;
  entered = h.entered;
  waited = w;
  drifting = h.drifting;
  failed = h.failed;
  recorded = h.recorded;
  in_range = h.in_range;
  in_time = h.in_time;
}

Sound-commit :
    (text : JsonText) (s : System) (call : Call) (rest : List Call) (fsm : Fsm) (r : Result)
    → Removes call s.waiting rest
    → apply text s.fsm (encode text (command call)) ≡ returned (fsm, r)
    → Sound text s
    → Sound text (record s { fsm = fsm; waiting = rest; log = applied s call r none })
Sound-commit text s call rest fsm r out a h =
    let w = Removes-All (Waited s.now) call s.waiting rest out h.waited in
    let l = Logged-applied text s call fsm r none h a w.0 tt in
    record {
      replayed = l.replayed;
      sorted = l.sorted;
      entered = l.entered;
      waited = w.1;
      drifting = h.drifting;
      failed = h.failed;
      recorded =
          rw
            (records_of-snoc s.log
              (record { call = call; time = s.now; result = r; closing = none }))
            (rw (append-nil (records_of s.log)) h.recorded);
      in_range = h.in_range;
      in_time = h.in_time;
    }

Sound-commit_adrift :
    (text : JsonText) (s : System) (a : Adrift) (rest : List Adrift) (fsm : Fsm) (r : Result)
    → Removes a s.adrift rest
    → apply text s.fsm (encode text (command a.call)) ≡ returned (fsm, r)
    → Sound text s
    → Sound text (record s { fsm = fsm; adrift = rest; log = applied s a.call r (some a.done) })
Sound-commit_adrift text s a rest fsm r out e h =
    let w = Removes-All (Drifting s.now) a s.adrift rest out h.drifting in
    let l =
      Logged-applied text s a.call fsm r (some a.done) h e w.0.called
        (unknown-Told a.call s.now r a.done w.0.called w.0.input w.0.start_ns w.0.outcome) in
    record {
      replayed = l.replayed;
      sorted = l.sorted;
      entered = l.entered;
      waited = h.waited;
      drifting = w.1;
      failed = h.failed;
      recorded =
          Perm.trans
            (Perm-moved (records_of s.log) s.failed
              (records_of-snoc s.log
                (record { call = a.call; time = s.now; result = r; closing = some a.done }))
              (Perm.map done_of (Removes-Perm a s.adrift rest out)))
            h.recorded;
      in_range = h.in_range;
      in_time = h.in_time;
    }

-- One record more of a call that has begun.
InRange-recorded :
    (text : JsonText) (s : System) (call : Call) (round : Round) (c : Client) (done : Op)
    → call.start ≤ s.now
    → Attempted s call round (finished c done)
    → Sound text s
    → All InRange c.recorded
InRange-recorded text s call round c done l a h =
    subst⁻¹ (All InRange) (Attempted-Recording s call round c done a).recorded (
      All-append InRange s.history (done ∷ []) h.in_range
        (attempt-InRange s call round c done l h.in_time a, tt))

Sound-closed :
    (text : JsonText) (s : System) (e : Entry) (log : List Entry) (round : Round) (c : Client)
    (done : Op)
    → e.closing ≡ none
    → Replaces e (closed e done) s.log log
    → Entered s.now e
    → Told e.call e.time e.result done
    → Attempted s e.call round (finished c done)
    → Sound text s
    → Sound text (record s { log = log; history = c.recorded })
Sound-closed text s e log round c done n r k t a h =
    let l = Logged-closed text s e log done h r t in
    record {
      replayed = l.replayed;
      sorted = l.sorted;
      entered = l.entered;
      waited = h.waited;
      drifting = h.drifting;
      failed = h.failed;
      recorded =
          Perm-recorded
            (Perm-first (map done_of s.adrift) s.failed (records_of-Replaces e done s.log log n r))
            h.recorded (Attempted-Recording s e.call round c done a).recorded;
      in_range = InRange-recorded text s e.call round c done (omega (arith, k.called, k.past)) a h;
      in_time = h.in_time;
    }

Sound-give_up :
    (text : JsonText) (s : System) (call : Call) (rest : List Call) (round : Round) (c : Client)
    (done : Op)
    → Removes call s.waiting rest
    → round.result.class ≡ "unknown"
    → Attempted s call round (finished c done)
    → Sound text s
    → Sound text (record s {
      waiting = rest;
      adrift = record { call = call; done = done } ∷ s.adrift;
      history = c.recorded;
    })
Sound-give_up text s call rest round c done out u a h =
    let w = Removes-All (Waited s.now) call s.waiting rest out h.waited in
    let rec = Attempted-Recording s call round c done a in
    record {
      replayed = h.replayed;
      sorted = h.sorted;
      entered = h.entered;
      waited = w.1;
      drifting = (
        record {
          called = w.0;
          input = rec.input;
          start_ns = start_of s call round c done a;
          outcome = unknown_outcome s call round c done u a;
        },
        h.drifting,
      );
      failed = h.failed;
      recorded =
          Perm-recorded (Perm-second (records_of s.log) (map done_of s.adrift) s.failed) h.recorded
            rec.recorded;
      in_range = InRange-recorded text s call round c done w.0 a h;
      in_time = h.in_time;
    }

Sound-fail :
    (text : JsonText) (s : System) (call : Call) (rest : List Call) (round : Round) (c : Client)
    (done : Op)
    → Removes call s.waiting rest
    → round.result.class ≡ "fail"
    → Attempted s call round (finished c done)
    → Sound text s
    → Sound text (record s { waiting = rest; failed = done ∷ s.failed; history = c.recorded })
Sound-fail text s call rest round c done out f a h =
    let w = Removes-All (Waited s.now) call s.waiting rest out h.waited in
    record {
      replayed = h.replayed;
      sorted = h.sorted;
      entered = h.entered;
      waited = w.1;
      drifting = h.drifting;
      failed = (fail-Lost s call round c done f a, h.failed);
      recorded =
          Perm-recorded (Perm-third (records_of s.log) (map done_of s.adrift) s.failed) h.recorded
            (Attempted-Recording s call round c done a).recorded;
      in_range = InRange-recorded text s call round c done w.0 a h;
      in_time = h.in_time;
    }

Step-Sound : (text : JsonText) (s t : System) → Step text s t → Sound text s → Sound text t
Step-Sound text s _ (Step.tick d l) h = Sound-tick text s d l h
Step-Sound text s _ (Step.send call e) h =
    Sound-waiting text s (call ∷ s.waiting) (omega arith, h.waited) h
Step-Sound text s _ (Step.commit call rest fsm r out a) h =
    Sound-commit text s call rest fsm r out a h
Step-Sound text s _ (Step.commit_adrift a rest fsm r out e) h =
    Sound-commit_adrift text s a rest fsm r out e h
Step-Sound text s _ (Step.answer e log round c done n r w a) h =
    let k = Replaces-get (Entered s.now) e (closed e done) s.log log r h.entered in
    Sound-closed text s e log round c done n r k
      (answer-Told text s e.call e.time e.result round c done k.called w a) a h
Step-Sound text s _ (Step.lose_answer e log round c done n r u a) h =
    let k = Replaces-get (Entered s.now) e (closed e done) s.log log r h.entered in
    Sound-closed text s e log round c done n r k
      (lost-Told s e.call e.time e.result round c done k.called u a) a h
Step-Sound text s _ (Step.give_up call rest round c done out u a) h =
    Sound-give_up text s call rest round c done out u a h
Step-Sound text s _ (Step.fail call rest round c done out f a) h =
    Sound-fail text s call rest round c done out f a h
Step-Sound text s _ (Step.retry call rest round op out f a) h =
    Sound-waiting text s rest (Removes-All (Waited s.now) call s.waiting rest out h.waited).1 h

Sound-init : (text : JsonText) → Sound text init
Sound-init text = record {
  replayed = unfold replay in refl;
  sorted = tt;
  entered = tt;
  waited = tt;
  drifting = tt;
  failed = tt;
  recorded = Perm.refl [];
  in_range = tt;
  in_time = omega arith;
}

-- What holds at every time of the system: the state machine is where the log of its entries leads it,
-- with the results that the entries hold; the entries took effect in the order of the log, each after
-- its call; and the shared recorder holds, in some order, the true records of the entries that have
-- ended, those of the calls given up and those of the definite failures, and nothing else.
pub reach-Sound : (text : JsonText) (s : System) → Reach text s → Sound text s
reach-Sound text _ Reach.start = Sound-init text
reach-Sound text _ (Reach.later {s} {t} r step) = Step-Sound text s t step (reach-Sound text s r)
