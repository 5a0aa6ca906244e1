-- ===== src/Harness/Run/Quiet.antt =====
-- The parts of the phases that inject no fault keep what is good, and add their check.
use quorum_kv.Prelude.{
  Bool, String, ◌≡◌, refl, false, Option, some, List, [], ◌∷◌, Try, ok, err, ℕ, ◌+◌, ◌*◌,
}
use quorum_kv.History.{Op}
use quorum_kv.Harness.Nodes.{Node}
use quorum_kv.Harness.Invoke.{Client}
use quorum_kv.Harness.Runner.{check, State, Options, Env, request, second}
use mathlib.Core.List.{◌++◌}
use quorum_kv.Harness.Phases.SelfTest.{
  phase_checker_self_test, read_history, accept_good, reject_bad,
}
use quorum_kv.Harness.Phases.Smoke.{Tally, smoke_loop, phase_smoke}
use quorum_kv.Harness.Runner.Rules.{
  Triple-asks, Triple-outside, Triple, Any, Triple-pure, Triple-if, Triple-bind,
}
use quorum_kv.Harness.Run.Log.{Condition}
use quorum_kv.Harness.Run.Members.{reset_keys-smoke}
use quorum_kv.Harness.Run.Good.{
  Good, Good-outside, Good-asks, Good-options, Good-check, Good-check-false,
}
use quorum_kv.Harness.Run.Invoked.{Good-invoke}

-- the names of the self-test's checks
abbrev pub self_test_names : List String
self_test_names = "checker-rejects-known-bad" ∷ "checker-accepts-known-good" ∷ []

module _ {W : Type 0} (e : Env W) {o : Options} {L : Option Condition → Type 0} where
  read_history-Good :
      {ns : List String} (path : String)
      → Triple (Good o ns L) Any (Good o ns L) (read_history e path)
  unfolding read_history
  read_history-Good path = Triple-bind (Good-outside _) λ b _. Triple-pure _ tt

  accept_good-Good :
      (x : Try String (List Op))
      → Triple
          (Good o ("checker-rejects-known-bad" ∷ []) L)
          Any
          (Good o self_test_names L)
          (accept_good e x)
  accept_good-Good (err m) = Good-check _ _ _ refl
  accept_good-Good (ok good) = Good-check _ _ _ refl

  reject_bad-Good :
      (dir : String) (x : Try String (List Op))
      → Triple (Good o [] L) Any (Good o self_test_names L) (reject_bad e dir x)
  reject_bad-Good dir (err m) = Good-check-false self_test_names _ _ refl
  reject_bad-Good dir (ok bad) =
      Triple-bind (Good-check _ _ _ refl)
        λ u _. Triple-bind (read_history-Good _) λ x _. accept_good-Good x

  pub phase_checker_self_test-Good :
      Triple (Good o [] L) Any (Good o self_test_names L) (phase_checker_self_test e)
  unfolding phase_checker_self_test
  phase_checker_self_test-Good =
      Triple-bind (Good-asks _)
        λ dir _. Triple-bind (read_history-Good _) λ bad _. reject_bad-Good dir bad

-- Nothing has been recorded yet.
abbrev pub Fresh : {W : Type 0} → State W → Type 0
Fresh s = s.runner.recorded ≡ []

module _ {W : Type 0} (e : Env W) where
  read_history-Fresh : (path : String) → Triple Fresh Any Fresh (read_history e path)
  unfolding read_history
  read_history-Fresh path = Triple-bind (Triple-outside _ λ s w h. h) λ b _. Triple-pure _ tt

  check-Fresh :
      (name : String) (pass : Bool) (detail : String)
      → Triple {W = W} Fresh Any Fresh (check name pass detail)
  unfolding check
  check-Fresh name pass detail = record { at = λ s h. (tt, h) }

  accept_good-Fresh : (x : Try String (List Op)) → Triple Fresh Any Fresh (accept_good e x)
  accept_good-Fresh (err m) = check-Fresh _ _ _
  accept_good-Fresh (ok good) = check-Fresh _ _ _

  reject_bad-Fresh :
      (dir : String) (x : Try String (List Op)) → Triple Fresh Any Fresh (reject_bad e dir x)
  reject_bad-Fresh dir (err m) = check-Fresh _ _ _
  reject_bad-Fresh dir (ok bad) =
      Triple-bind (check-Fresh _ _ _)
        λ u _. Triple-bind (read_history-Fresh _) λ x _. accept_good-Fresh x

  pub phase_checker_self_test-Fresh : Triple Fresh Any Fresh (phase_checker_self_test e)
  unfolding phase_checker_self_test
  phase_checker_self_test-Fresh =
      Triple-bind (Triple-asks _)
        λ dir _. Triple-bind (read_history-Fresh _) λ bad _. reject_bad-Fresh dir bad

module _ {W : Type 0} (e : Env W) {o : Options} {ns : List String}
    {L : Option Condition → Type 0} where
  smoke_loop-Good :
      (c : Client) (nodes : List Node) (i : ℕ) (t : Tally)
      → Triple (Good o ns L) Any (Good o ns L) (smoke_loop e c nodes i t)
  unfolding smoke_loop request
  smoke_loop-Good c [] i t = Triple-pure _ tt
  smoke_loop-Good c (n ∷ ns) i t =
      Triple-bind
        (Good-invoke e c _ (20 * second) false (some n) refl (reset_keys-smoke o.num_keys))
        λ a _. Triple-if _ (smoke_loop-Good a.0 ns (i + 1) _) (
          Triple-bind
            (Good-invoke e a.0 _ (20 * second) false (some n) refl (reset_keys-smoke o.num_keys))
            λ b _. smoke_loop-Good b.0 ns (i + 1) _)

  pub phase_smoke-Good :
      Triple (Good o ns L) Any (Good o (ns ++ "smoke-all-nodes" ∷ []) L) (phase_smoke e)
  unfolding phase_smoke
  phase_smoke-Good =
      Triple-bind Good-options
        λ o' same. Triple-bind (smoke_loop-Good _ o'.nodes 0 _) λ t _. Good-check _ _ _ refl
