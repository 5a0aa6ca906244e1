-- ===== src/Checker/Linearizable.antt =====
-- What it means that a history is linearizable with respect to the model.
use quorum_kv.Prelude.{◌≡◌, true, List, [], ◌∷◌, All}
use mathlib.Core.List.{Perm}
use quorum_kv.Prelude.Int.{◌≤ℤ◌}
use quorum_kv.Checker.Model.{KvState, Operation, step, init}

-- The model accepts the operations one after another.
abbrev pub Accepts : KvState → List Operation → Type 0
Accepts st [] = Unit
Accepts st (o ∷ os) =
    ((step st o.input o.output).0 ≡ true) × Accepts (step st o.input o.output).1 os

-- No operation stands before one that returned before it was called.
abbrev pub InTime : List Operation → Type 0
InTime [] = Unit
InTime (o ∷ os) = All (λ p. o.call ≤ℤ p.return) os × InTime os

pub record Linearization (ops : List Operation) : Type 0 where
  pub order : List Operation
  pub same : Perm order ops
  pub in_time : InTime order
  pub accepted : Accepts init order
