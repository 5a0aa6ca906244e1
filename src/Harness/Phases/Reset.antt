-- ===== src/Harness/Phases/Reset.antt =====
-- internal/harness/run.go: phaseReset.
use quorum_kv.Prelude.{
  String, false, none, List, [], ◌∷◌, ◌==◌, if◌then◌else◌, length, ℕ, ◌+◌, ◌*◌, nat_eq,
}
use quorum_kv.Prelude.Int.{pos}
use quorum_kv.History.{outcome_ok}
use quorum_kv.Harness.Invoke.{Client}
use quorum_kv.Harness.Runner.{
  Env, Run, pure, asks, ◌>>=◌, check, new_client, request, invoke_op, second,
}
use Prim.Native.String.{◌++◌}
use quorum_kv.Fmt.{decimal}
use quorum_kv.Harness.Phases.Keys.{reset_keys}

module _ {W : Type 0} (e : Env W) where
  -- the loop over the keys: how many deletes were not acknowledged
  unfoldable pub reset_loop : Client → List String → ℕ → Run W ℕ
  unfolding invoke_op request
  reset_loop c [] failed = pure failed
  reset_loop c (k ∷ ks) failed = do
    (c', op) ← invoke_op e c (request (pos 999) "delete" k "" none) (20 * second) false none
    reset_loop c' ks (if op.outcome == outcome_ok then failed else failed + 1)

  unfoldable pub phase_reset : Run W (Unit {0})
  unfolding reset_loop reset_keys new_client check decimal
  phase_reset = do
    o ← asks (λ r. r.options)
    let keys = reset_keys o.num_keys
    failed ← reset_loop (new_client (pos 999) o.nodes) keys 0
    check "reset-initial-state" (nat_eq failed 0) (
        "deleted "
        ++ (decimal (length keys) ++ (" workload keys (" ++ (decimal failed ++ " failed)"))))
