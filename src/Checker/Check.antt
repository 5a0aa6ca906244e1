-- ===== src/Checker/Check.antt =====
-- internal/checker/checker.go: Check, over Porcupine's CheckOperationsVerbose.
use quorum_kv.Prelude.{◌≡◌, refl, Bool, true, false, List, ◌≢◌, All, length, ℕ}
use quorum_kv.Json.{JsonText}
use quorum_kv.History.{Op}
use quorum_kv.Checker.Model.{Operation, partition}
use quorum_kv.Checker.Operations.{to_operations}
use quorum_kv.Checker.Linearizable.{Linearization}
use quorum_kv.Checker.Partition.{All-partition}
use quorum_kv.Checker.Complete.{Recorded, Recorded-Linearization}

-- porcupine.CheckResult
pub data CheckResult : Type 0 where
  ok illegal unknown : CheckResult

-- porcupine.CheckOperationsVerbose of `Model`, with the time that it may take. As documented it
-- answers Ok if each part of the history is linearizable, Illegal if one is not, Unknown if the time
-- ran out. What it returns beside the verdict serves the picture of a violation only.
pub record Porcupine : Type 0 where
  pub check_operations : List Operation → ℕ → CheckResult
  pub ok_sound :
      (ops : List Operation) (timeout : ℕ)
      → check_operations ops timeout ≡ ok
      → All Linearization (partition ops)
  pub illegal_sound :
      (ops : List Operation) (timeout : ℕ)
      → check_operations ops timeout ≡ illegal
      → ¬ All Linearization (partition ops)

abbrev pub is_ok : CheckResult → Bool
is_ok ok = true
is_ok illegal = false
is_ok unknown = false

pub record Result : Type 0 where
  pub linearizable : Bool
  pub ops : ℕ

decided : (c : CheckResult) → c ≢ unknown → c ≢ illegal → is_ok c ≡ true
decided ok u i = refl
decided illegal u i = absurd (i refl)
decided unknown u i = absurd (u refl)

-- Check
unfoldable pub check : Porcupine → List Op → ℕ → Result
unfolding to_operations
check p ops timeout =
    let pops = to_operations ops in
    record { linearizable = is_ok (p.check_operations pops timeout); ops = length pops }

-- For a truthful history Check says that it is linearizable, unless the time runs out.
pub check_accepts :
    (text : JsonText) (p : Porcupine) (ops : List Op) (timeout : ℕ)
    → Recorded text ops
    → p.check_operations (to_operations ops) timeout ≢ unknown
    → (check p ops timeout).linearizable ≡ true
unfolding check
check_accepts text p ops timeout r in_time =
    decided (p.check_operations (to_operations ops) timeout) in_time (λ e.
      p.illegal_sound (to_operations ops) timeout e
        (All-partition Linearization (to_operations ops) (Recorded-Linearization text ops r)))
