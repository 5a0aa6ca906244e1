-- ===== src/Harness/Phases/Final.antt =====
-- internal/harness/run.go: phaseLinearizability.
use quorum_kv.Prelude.{String, List, if◌then◌else◌, length, ℕ, ◌*◌}
use quorum_kv.History.{Op}
use quorum_kv.Harness.Runner.{Env, Run, pure, outside, asks, ◌>>=◌, check, second}
use Prim.Native.String.{◌++◌}
use quorum_kv.Fmt.{decimal}
use quorum_kv.Checker.Check

module _ {W : Type 0} (e : Env W) where
  abbrev pub ops_text : List Op → ℕ → String
  ops_text ops checkable =
      decimal (length ops)
      ++ (" recorded ops (" ++ (decimal checkable ++ " checkable after exclusions)"))

  -- the drawing of a violation, and what is said of it
  unfoldable pub drawing : String → Run W String
  drawing path = do
    drawn ← outside (e.visualize path)
    pure (if drawn then "; violation visualization: " ++ path else "")

  unfoldable pub phase_linearizability : Run W (Unit {0})
  unfolding drawing check Check.check decimal
  phase_linearizability = do
    ops ← asks (λ r. r.recorded)
    o ← asks (λ r. r.options)
    let res = Check.check e.porcupine ops (300 * second)
    more ←
        (if res.linearizable
          then pure ""
          else drawing (e.join o.out_dir "linearizability-violation.html"))
    check "history-linearizable" res.linearizable (ops_text ops res.ops ++ more)
