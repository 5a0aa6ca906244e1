-- ===== src/Harness/Phases/Smoke.antt =====
-- internal/harness/run.go: phaseSmoke.
use quorum_kv.Prelude.{
  String, Bool, true, false, ◌||◌, not, none, some, List, [], ◌∷◌, ◌==◌, if◌then◌else◌, ℕ, ◌+◌, ◌*◌,
}
use quorum_kv.Prelude.Int.{pos}
use quorum_kv.History.{Op, outcome_ok}
use quorum_kv.Harness.Nodes.{Node}
use quorum_kv.Harness.Invoke.{Client}
use quorum_kv.Harness.Runner.{
  Env, Run, pure, asks, ◌>>=◌, check, new_client, request, invoke_op, second,
}
use Prim.Native.String.{◌++◌}
use quorum_kv.Fmt.{decimal}
use quorum_kv.Harness.Phases.Keys.{smoke_key}

-- okAll and detail, the variables of the loops
pub record Tally : Type 0 where
  pub ok_all : Bool
  pub detail : String

-- The round has failed, with a remark.
unfoldable pub fail_with : Tally → String → Tally
fail_with t remark = record { ok_all = false; detail = t.detail ++ remark }

module _ {W : Type 0} (e : Env W) where
  abbrev pub put_failed : Node → Op → String
  put_failed n w = "put via " ++ (n.id ++ (": " ++ (w.outcome ++ "; ")))

  abbrev pub get_failed : Node → Op → String
  get_failed n g =
      "get via "
      ++ (n.id ++ (": outcome=" ++ (g.outcome ++ (" val=" ++ (e.quote g.ret_val ++ "; ")))))

  -- the loop over the nodes, each with its number
  unfoldable pub smoke_loop : Client → List Node → ℕ → Tally → Run W Tally
  unfolding invoke_op request fail_with decimal
  smoke_loop c [] i t = pure t
  smoke_loop c (n ∷ ns) i t = do
    let val = "smoke-" ++ decimal i
    (c', w) ← invoke_op e c (request (pos 0) "put" smoke_key val none) (20 * second) false (some n)
    if not (w.outcome == outcome_ok)
        then smoke_loop c' ns (i + 1) (fail_with t (put_failed n w))
        else do
          (c'', g) ←
              invoke_op e c' (request (pos 0) "get" smoke_key "" none) (20 * second) false (some n)
          smoke_loop c'' ns (i + 1) (
              if not (g.outcome == outcome_ok) || not g.present || not (g.ret_val == val)
              then fail_with t (get_failed n g)
              else t)

  unfoldable pub phase_smoke : Run W (Unit {0})
  unfolding smoke_loop new_client check
  phase_smoke = do
    o ← asks (λ r. r.options)
    t ← smoke_loop (new_client (pos 0) o.nodes) o.nodes 0 (record { ok_all = true; detail = "" })
    check "smoke-all-nodes" t.ok_all
        (if t.detail == "" then "put+get through each node's endpoint" else t.detail)
