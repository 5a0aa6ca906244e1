-- ===== src/Kv/Fsm/Contention.antt =====
-- Compare-and-swaps that contend for one key, as the harness's contention phase issues them.
use quorum_kv.Prelude.{
  String, ◌≡◌, refl, ◌∙◌, false, some, List, [], ◌∷◌, map, eq_iff, eq_refl, arith, if◌then◌else◌,
  ◌≢◌, ℕ, ◌+◌,
}
use quorum_kv.Json.{JsonText}
use quorum_kv.Kv.Command.{Result, op_cas}
use quorum_kv.Kv.Spec.{Request, Registers, cas, next, answers, after_requests, update, expects}
use quorum_kv.Kv.Fsm.{Fsm, Outcome, returned}
use quorum_kv.Kv.Fsm.Step.{view, IsValid}
use quorum_kv.Kv.Fsm.Replay.{replay, log_of, Follows, replay-Follows}

-- cas(key, e => v)
abbrev pub contender : String → String → String → Request
contender key e v = record {
  command = record { op = op_cas; key = key; value = v; expect = some e };
  kind = cas;
  known = refl;
}

abbrev pub contenders : String → String → List String → List Request
contenders key e = map (contender key e)

abbrev pub wins : List Result → ℕ
wins [] = 0
wins (r ∷ rs) = (if r.ok then 1 else 0) + wins rs

abbrev after_cas : Registers → String → String → String → Registers
after_cas s key e w = update s key (next cas (contender key e w).command (s key))

after_cas_lost :
    (s : Registers) (key e v w : String) → s key ≡ some v → v ≢ e → after_cas s key e w key ≡ some v
after_cas_lost s key e v w h d = rw h (ground (arith, eq_refl key, eq_iff v e))

after_cas_won :
    (s : Registers) (key e w : String) → s key ≡ some e → after_cas s key e w key ≡ some w
after_cas_won s key e w h = rw h (ground (arith, eq_refl key, eq_refl e))

-- Once the key holds another value, nobody wins.
losers :
    (s : Registers) (key e v : String) (vs : List String)
    → s key ≡ some v
    → v ≢ e
    → (wins (answers s (contenders key e vs)) ≡ 0)
      × (after_requests s (contenders key e vs) key ≡ some v)
losers s key e v [] h d = (refl, h)
losers s key e v (w ∷ vs) h d =
    ground (arith, lost, losers (after_cas s key e w) key e v vs (after_cas_lost s key e v w h d) d)
  where
    lost : expects (some e) (s key) ≡ false
    lost = rw h (ground (arith, eq_iff v e))

pub record OneWinner (key v : String) (run : Outcome (Fsm × List Result)) : Type 0 where
  pub last : Fsm
  pub results : List Result
  pub runs : run ≡ returned (last, results)
  pub one : wins results ≡ 1
  pub first : view last key ≡ some v

-- Of contenders that all expect the value that the key holds, and that all write other values,
-- exactly one wins, the first in the log, and its value is the one that the key holds in the end.
pub single_winner :
    (text : JsonText) (f : Fsm) (key e v : String) (vs : List String)
    → IsValid f
    → view f key ≡ some e
    → v ≢ e
    → OneWinner key v (replay text f (log_of text (contenders key e (v ∷ vs))))
single_winner text f key e v vs valid h d = record {
  last = run.last;
  results = answers (view f) (contenders key e (v ∷ vs));
  runs = run.runs;
  one = rw h (ground (arith, eq_refl e, rest.0));
  first = run.shows key ∙ rest.1;
}
  where
    run :
        Follows
          (view f)
          (contenders key e (v ∷ vs))
          (replay text f (log_of text (contenders key e (v ∷ vs))))
    run = replay-Follows text f (view f) _ valid (λ k. refl)

    rest :
        (wins (answers (after_cas (view f) key e v) (contenders key e vs)) ≡ 0)
        × (after_requests (after_cas (view f) key e v) (contenders key e vs) key ≡ some v)
    rest = losers (after_cas (view f) key e v) key e v vs (after_cas_won (view f) key e v h) d
