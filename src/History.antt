-- ===== src/History.antt =====
-- internal/history/history.go: one recorded client operation, and its outcomes.
pub mod Line
pub mod File
pub mod Written
mod Tests
use quorum_kv.Prelude.{String, Bool, Option}
use quorum_kv.Prelude.Int.{ℤ}

abbrev pub outcome_ok : String
outcome_ok = "ok"

abbrev pub outcome_failed : String
outcome_failed = "failed"

abbrev pub outcome_unknown : String
outcome_unknown = "unknown"

pub record Op : Type 0 where
  pub client : ℤ
  pub op : String
  pub key : String
  pub value : String
  pub expect : Option String
  pub start_ns : ℤ
  pub end_ns : ℤ
  pub outcome : String
  pub ok : Bool
  pub present : Bool
  pub ret_val : String
  pub node : String
