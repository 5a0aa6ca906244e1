-- ===== src/Checker/Record.antt =====
-- What a truthful client history is: the records of operations that a store carried out one after
-- another, and of operations that never took effect.
use quorum_kv.Prelude.{◌≡◌, some, List, [], ◌∷◌, map, ◌⊎◌, All}
use quorum_kv.Prelude.Int.{ℤ, ◌≤ℤ◌}
use quorum_kv.Kv.Command.{Result}
use quorum_kv.Kv.Spec.{Kind, kind_of, Request}
use quorum_kv.History.{Op, outcome_ok, outcome_failed, outcome_unknown}
use quorum_kv.Checker.Operations.{input_of}
use quorum_kv.Checker.Step.{command_of}

-- An operation that took effect: its record, and when the store carried it out.
pub record Committed : Type 0 where
  pub op : Op
  pub kind : Kind
  pub known : kind_of op.op ≡ some kind
  pub time : ℤ

abbrev pub request_of : Committed → Request
request_of c = record { command = command_of (input_of c.op); kind = c.kind; known = c.known }

-- The record of an operation that took effect: it did so after the call and, if it was acknowledged,
-- before the response, which carries the store's answer; it is never recorded as failed.
pub record Truthful (c : Committed) (r : Result) : Type 0 where
  pub called : c.op.start_ns ≤ℤ c.time
  pub outcome : (c.op.outcome ≡ outcome_ok) ⊎ (c.op.outcome ≡ outcome_unknown)
  pub returned : c.op.outcome ≡ outcome_ok → c.time ≤ℤ c.op.end_ns
  pub ok : c.op.outcome ≡ outcome_ok → c.op.ok ≡ r.ok
  pub present : c.op.outcome ≡ outcome_ok → c.op.present ≡ r.present
  pub ret_val : c.op.outcome ≡ outcome_ok → c.op.ret_val ≡ r.value

-- The record of an operation that never took effect: it is not acknowledged.
pub record Lost (o : Op) : Type 0 where
  pub outcome : (o.outcome ≡ outcome_failed) ⊎ (o.outcome ≡ outcome_unknown)
  pub known : (k : Kind) × (kind_of o.op ≡ some k)

abbrev pub AllTruthful : List Committed → List Result → Type 0
AllTruthful [] rs = Unit
AllTruthful (c ∷ cs) [] = ⊥
AllTruthful (c ∷ cs) (r ∷ rs) = Truthful c r × AllTruthful cs rs

-- The store carries operations out one after another.
abbrev pub InOrder : List Committed → Type 0
InOrder [] = Unit
InOrder (c ∷ cs) = All (λ d. c.time ≤ℤ d.time) cs × InOrder cs

abbrev pub ops_of : List Committed → List Op
ops_of = map (λ c. c.op)

abbrev pub requests_of : List Committed → List Request
requests_of = map request_of
