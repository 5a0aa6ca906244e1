-- ===== src/Checker/Complete.antt =====
-- A truthful history is linearizable with respect to the model: the checker raises no false alarm.
use quorum_kv.Prelude.{
  String, ◌≡◌, refl, sym, ◌∙◌, none, List, [], ◌∷◌, eq_iff, arith, ◌≢◌, inl, inr, All, ◌++◌,
}
use mathlib.Core.List.{filter_map, filter_map-cons-none, filter_map-cons-some, Perm}
use mathlib.Core.List.Perm
use mathlib.Core.Path.{subst, subst⁻¹}
use quorum_kv.Prelude.Int.{ℤ, ◌≤ℤ◌}
use quorum_kv.Kv.Command.{Result}
use quorum_kv.Kv.Spec.{next, Registers, answers}
use quorum_kv.History.{Op, outcome_ok, outcome_failed, outcome_unknown}
use quorum_kv.Checker.Operations.{to_operations, horizon}
use quorum_kv.Checker.Linearizable.{Accepts, Linearization}
use quorum_kv.Checker.Horizon.{InRange, Before, horizon-above}
use quorum_kv.Checker.Step.{reg}
use quorum_kv.Checker.Record.{Committed, Lost, AllTruthful, InOrder, ops_of, requests_of}
use quorum_kv.Checker.Kept.{kept, part, part-to_operations, Later, TimeOrdered, InTime-kept}
use native.Mathlib.Bridge.{le_prop}
use quorum_kv.Prelude.{All-append, All-Perm}
use quorum_kv.Json.{JsonText}
use quorum_kv.Kv.Fsm.{Fsm, new_fsm, returned}
use quorum_kv.Kv.Fsm.Replay.{replay, log_of, replay-Follows}
use quorum_kv.Kv.Fsm.Step.{IsValid, view}
use quorum_kv.GoMap
use quorum_kv.Checker.Carry.{Carried, skipped, stepped, moved, carry, Accepts-Lost}

abbrev pub empty : Registers
empty k = none

Carried-Accepts :
    (h : ℤ) (k : String) (s s' : Registers) (o : Op) (os : List Op)
    → Carried h k s s' o
    → Accepts (reg (s' k)) (filter_map (kept h k) os)
    → Accepts (reg (s k)) (filter_map (kept h k) (o ∷ os))
Carried-Accepts h k s s' o os (skipped e same) a =
    subst⁻¹ (Accepts (reg (s k))) (filter_map-cons-none (kept h k) o os e)
      (subst (λ r. Accepts (reg r) (filter_map (kept h k) os)) same a)
Carried-Accepts h k s s' o os (stepped p e accepted next) a =
    subst⁻¹ (Accepts (reg (s k))) (filter_map-cons-some (kept h k) o os e)
      (accepted, subst⁻¹ (λ st. Accepts st (filter_map (kept h k) os)) next a)

Accepts-history :
    (h : ℤ) (k : String) (s : Registers) (cs : List Committed) (lost : List Op)
    → AllTruthful cs (answers s (requests_of cs))
    → All Lost lost
    → Accepts (reg (s k)) (filter_map (kept h k) (ops_of cs ++ lost))
Accepts-history h k s [] lost t l = Accepts-Lost h k lost (reg (s k)) l
Accepts-history h k s (c ∷ cs) lost t l =
    Carried-Accepts h k s (moved s c) c.op (ops_of cs ++ lost) (carry h k s c t.0)
      (Accepts-history h k (moved s c) cs lost t.1 l)

ok_not_failed : outcome_ok ≢ outcome_failed
ok_not_failed = ground (arith, eq_iff outcome_ok outcome_failed)

ok_not_unknown : outcome_ok ≢ outcome_unknown
ok_not_unknown = ground (arith, eq_iff outcome_ok outcome_unknown)

Lost-ne_ok : (o : Op) → Lost o → o.outcome ≢ outcome_ok
Lost-ne_ok o l e = elim l.outcome [
  | inl failed ↦ ok_not_failed (sym e ∙ failed)
  | inr unknown ↦ ok_not_unknown (sym e ∙ unknown)
]

Later-Lost : (t : ℤ) (os : List Op) → All Lost os → All (Later t) os
Later-Lost t [] l = tt
Later-Lost t (o ∷ os) l = (λ e. absurd (Lost-ne_ok o l.0 e), Later-Lost t os l.1)

Later-committed :
    (t : ℤ) (cs : List Committed) (rs : List Result)
    → AllTruthful cs rs
    → All (λ d. t ≤ℤ d.time) cs
    → All (Later t) (ops_of cs)
Later-committed t [] rs a b = tt
Later-committed t (c ∷ cs) [] a b = absurd a
Later-committed t (c ∷ cs) (r ∷ rs) a b =
    (λ e. omega (arith, b.0, a.0.returned e), Later-committed t cs rs a.1 b.1)

Later_from :
    (t u : ℤ) (cs : List Committed) → t ≤ℤ u → All (λ d. u ≤ℤ d.time) cs → All (λ d. t ≤ℤ d.time) cs
Later_from t u [] h a = tt
Later_from t u (c ∷ cs) h a = (omega arith, Later_from t u cs h a.1)

TimeOrdered-Lost : (os : List Op) → All Lost os → TimeOrdered os
TimeOrdered-Lost [] l = tt
TimeOrdered-Lost (o ∷ os) l = (Later-Lost o.start_ns os l.1, TimeOrdered-Lost os l.1)

TimeOrdered-history :
    (cs : List Committed) (rs : List Result) (lost : List Op)
    → AllTruthful cs rs
    → InOrder cs
    → All Lost lost
    → TimeOrdered (ops_of cs ++ lost)
TimeOrdered-history [] rs lost t i l = TimeOrdered-Lost lost l
TimeOrdered-history (c ∷ cs) [] lost t i l = absurd t
TimeOrdered-history (c ∷ cs) (r ∷ rs) lost t i l = (
  All-append (Later c.op.start_ns) (ops_of cs) lost
      (Later-committed c.op.start_ns cs rs t.1 (Later_from c.op.start_ns c.time cs t.0.called i.0))
      (Later-Lost c.op.start_ns lost l),
  TimeOrdered-history cs rs lost t.1 i.1 l,
)

-- The clients' record `ops` of a run of the store from its start: `log` took effect in its order with
-- the results of the state machine, `lost` did not take effect, and each operation has its record.
pub record Recorded (text : JsonText) (ops : List Op) : Type 0 where
  pub log : List Committed
  pub lost : List Op
  pub last : Fsm
  pub results : List Result
  pub replayed : replay text new_fsm (log_of text (requests_of log)) ≡ returned (last, results)
  pub truthful : AllTruthful log results
  pub in_order : InOrder log
  pub never : All Lost lost
  pub recorded : Perm (ops_of log ++ lost) ops
  pub in_range : All InRange ops

IsValid-new : IsValid new_fsm
IsValid-new = record { allocated = refl; unique = tt }

results-answers :
    (text : JsonText) (cs : List Committed) (f : Fsm) (rs : List Result)
    → replay text new_fsm (log_of text (requests_of cs)) ≡ returned (f, rs)
    → answers empty (requests_of cs) ≡ rs
results-answers text cs f rs e =
    cc
      (replay-Follows text new_fsm empty (requests_of cs) IsValid-new
        (unfold view GoMap.get in λ k. refl)).runs

Before-starts : (h : ℤ) (os : List Op) → All (Before h) os → All (λ o. o.start_ns ≤ℤ h) os
Before-starts h [] b = tt
Before-starts h (o ∷ os) b = (omega arith, Before-starts h os b.1)

-- Every part of a truthful history, that of each key, has a linearization that the model accepts.
pub Recorded-Linearization :
    (text : JsonText) (ops : List Op)
    → Recorded text ops
    → (k : String) → Linearization (part k (to_operations ops))
Recorded-Linearization text ops r k = record {
  order = filter_map (kept h k) zs;
  same =
      subst⁻¹ (Perm (filter_map (kept h k) zs)) (part-to_operations k ops)
        (Perm.filter_map (kept h k) r.recorded);
  in_time =
      InTime-kept h k zs
        (All-Perm (λ o. o.start_ns ≤ℤ h) (λ o. le_prop) r.recorded
          (Before-starts h ops (horizon-above ops r.in_range)))
        (TimeOrdered-history r.log r.results r.lost r.truthful r.in_order r.never);
  accepted =
      Accepts-history h k empty r.log r.lost
        (subst⁻¹ (AllTruthful r.log) (results-answers text r.log r.last r.results r.replayed)
          r.truthful)
        r.never;
}
  where
    h : ℤ
    h = horizon ops

    zs : List Op
    zs = ops_of r.log ++ r.lost
