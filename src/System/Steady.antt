-- ===== src/System/Steady.antt =====
-- Each step keeps what holds of the system.
use quorum_kv.Prelude.{
  ◌≡◌, refl, Option, List, [], ◌∷◌, map, All, All-append, All-imp, ℕ, ◌≤◌, ◌<◌, ◌+◌, arith,
}
use mathlib.Core.List.{map-append}
use quorum_kv.Prelude.Int.{max_int64}
use quorum_kv.Json.{JsonText}
use quorum_kv.Kv.Command.{Result, encode}
use quorum_kv.Kv.Fsm.{Fsm, new_fsm, returned, apply}
use quorum_kv.Kv.Fsm.Replay.{replay, replay-snoc}
use quorum_kv.History.{Op}
use quorum_kv.System.{System, Entry, Adrift, Call, command, applied, closed}
use quorum_kv.System.Places.{Replaces, Replaces-map, Replaces-All}
use quorum_kv.System.Lists.{Sorted, Sorted-snoc}
use quorum_kv.System.Invariant.{
  Sound, Entered, Drifting, Waited, ToldIf, Told, bytes_of, result_of, time_of,
}

-- What the applied log is: its replay, its times, and what is recorded of it.
pub record Logged (text : JsonText) (now : ℕ) (fsm : Fsm) (log : List Entry) : Type 0 where
  pub replayed : replay text new_fsm (map (bytes_of text) log) ≡ returned (fsm, map result_of log)
  pub sorted : Sorted (map time_of log)
  pub entered : All (Entered now) log

pub Sound-Logged : (text : JsonText) (s : System) → Sound text s → Logged text s.now s.fsm s.log
Sound-Logged text s h = record { replayed = h.replayed; sorted = h.sorted; entered = h.entered }

times_past :
    (now : ℕ) (log : List Entry) → All (Entered now) log → All (λ t. t ≤ now) (map time_of log)
times_past now [] h = tt
times_past now (e ∷ log) h = (h.0.past, times_past now log h.1)

-- A proposal that is committed now.
pub Logged-applied :
    (text : JsonText) (s : System) (call : Call) (fsm : Fsm) (r : Result) (closing : Option Op)
    → Sound text s
    → apply text s.fsm (encode text (command call)) ≡ returned (fsm, r)
    → call.start ≤ s.now
    → ToldIf call s.now r closing
    → Logged text s.now fsm (applied s call r closing)
Logged-applied text s call fsm r closing h a c t = record {
  replayed =
      rw (map-append (bytes_of text) s.log (e ∷ []), map-append result_of s.log (e ∷ []))
        (replay-snoc text new_fsm s.fsm fsm (map (bytes_of text) s.log) (map result_of s.log)
          (encode text (command call)) r h.replayed a);
  sorted =
      rw (map-append time_of s.log (e ∷ []))
        (Sorted-snoc (map time_of s.log) s.now (times_past s.now s.log h.entered) h.sorted);
  entered =
      All-append (Entered s.now) s.log (e ∷ []) h.entered
        (record { called = c; past = omega arith; told = t }, tt);
}
  where
    e : Entry
    e = record { call = call; time = s.now; result = r; closing = closing }

-- A call in the log that ends with a true record.
pub Logged-closed :
    (text : JsonText) (s : System) (e : Entry) (log : List Entry) (done : Op)
    → Sound text s
    → Replaces e (closed e done) s.log log
    → Told e.call e.time e.result done
    → Logged text s.now s.fsm log
Logged-closed text s e log done h r t = record {
  replayed =
      rw
        (
          Replaces-map (bytes_of text) e (closed e done) s.log log refl r,
          Replaces-map result_of e (closed e done) s.log log refl r,
        )
        h.replayed;
  sorted = rw (Replaces-map time_of e (closed e done) s.log log refl r) h.sorted;
  entered =
      Replaces-All (Entered s.now) e (closed e done) s.log log r
        (λ k. record { called = k.called; past = k.past; told = t }) h.entered;
}

-- Time passes.
Entered-later : (n m : ℕ) → n ≤ m → (e : Entry) → Entered n e → Entered m e
Entered-later n m l e h = record { called = h.called; past = omega (arith, h.past); told = h.told }

Drifting-later : (n m : ℕ) → n ≤ m → (a : Adrift) → Drifting n a → Drifting m a
Drifting-later n m l a h = record {
  called = omega (arith, h.called);
  input = h.input;
  start_ns = h.start_ns;
  outcome = h.outcome;
}

pub Sound-tick :
    (text : JsonText) (s : System) (d : ℕ)
    → s.now + d < max_int64
    → Sound text s
    → Sound text (record s { now = s.now + d })
Sound-tick text s d l h = record {
  replayed = h.replayed;
  sorted = h.sorted;
  entered =
      All-imp (Entered s.now) (Entered (s.now + d)) (Entered-later s.now (s.now + d) (omega arith))
        s.log h.entered;
  waited = All-imp (Waited s.now) (Waited (s.now + d)) (λ c k. omega arith) s.waiting h.waited;
  drifting =
      All-imp (Drifting s.now) (Drifting (s.now + d))
        (Drifting-later s.now (s.now + d) (omega arith)) s.adrift h.drifting;
  failed = h.failed;
  recorded = h.recorded;
  in_range = h.in_range;
  in_time = l;
}
