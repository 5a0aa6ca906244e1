-- ===== src/Harness/Run/Standalone.antt =====
-- cmd/harness: a history file that is checked by itself.
use quorum_kv.Prelude.{
  ◌∙◌, sym, String, ◌≡◌, refl, true, Option, none, some, List, ok, All, ◌*◌, ap, arith,
}
use quorum_kv.History.{Op}
use quorum_kv.Checker.Check
use quorum_kv.Checker.Kept.{part}
use quorum_kv.Checker.Operations.{to_operations}
use quorum_kv.Checker.Sound.{IsKnown, AllowedOrder, check-AllowedOrder}
use quorum_kv.Harness.Runner.{Env, State, second, pure, outside, ◌>>=◌}
use quorum_kv.Harness.Phases.SelfTest.{read_history, read_opened}
use quorum_kv.Harness.Run.{Exit, status, fatal, checked, check_only}

module _ {W : Type 0} (e : Env W) where
  code : Option (Exit × State W) → Exit
  code none = fatal ""
  code (some (x, s)) = x

  passes :
      (ops : List Op)
      → checked e (ok ops) ≡ status 0
      → (Check.check e.porcupine ops (300 * second)).linearizable ≡ true
  passes ops h = ground (arith, h)

  check_only-code :
      (path : String) (s : State W)
      → code (check_only e path s) ≡ checked e (read_opened e (e.read_file path s.world).0)
  unfolding check_only read_history pure outside ◌>>=◌ code
  check_only-code path s = refl

-- If the harness, asked to check the file of a history of known operations, ends with status 0, then for
-- every key the operations that ToOperations makes of the file's records have an order that respects
-- their times, and in which, against a store that starts empty, each get saw the key's presence and its
-- value where present, and each cas whose outcome is known won or lost as recorded. Nothing is said of
-- what the puts and deletes reported, nor of the value that a cas reported.
pub check_only-AllowedOrder :
    {W : Type 0} (e : Env W) (path : String) (ops : List Op) (s t : State W)
    → read_opened e (e.read_file path s.world).0 ≡ ok ops
    → All IsKnown ops
    → check_only e path s ≡ some (status 0, t)
    → (k : String) → AllowedOrder k (part k (to_operations ops))
unfolding code
check_only-AllowedOrder e path ops s t r known h =
    check-AllowedOrder e.porcupine ops (300 * second) known
      (passes e ops (ap (checked e) (sym r) ∙ sym (check_only-code e path s) ∙ ap (code e) h))
