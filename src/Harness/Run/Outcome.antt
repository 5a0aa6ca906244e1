-- ===== src/Harness/Run/Outcome.antt =====
-- internal/harness/run.go and cmd/harness: what a whole run leaves behind.
use mathlib.Core.Path.{subst}
use quorum_kv.Prelude.{Bool, Bool-cases, ◌==◌}
use quorum_kv.Harness.Run.Good.{has_key}
use quorum_kv.Harness.Run.Resets.{ResetBy, Deletes, reset_check}
use quorum_kv.Prelude.{
  String, ◌≡◌, refl, true, false, some, List, [], ◌∷◌, eq_iff, arith, ok, length, ◌+◌, ◌*◌,
}
use quorum_kv.History.{Op, outcome_ok, outcome_failed, outcome_unknown}
use quorum_kv.Harness.Runner.{CheckResult, Report, Options, Env, State, second}
use quorum_kv.Prelude.{All}
use quorum_kv.Harness.Phases.Keys.{reset_keys}
use quorum_kv.Harness.Run.Log.{healed}
use quorum_kv.Prelude.{inl, inr, ◌⊎◌, ap}
use quorum_kv.Checker.Sound.{IsKnown, AllowedOrder, check-AllowedOrder}
use quorum_kv.Checker.Kept.{part}
use quorum_kv.Checker.Operations.{to_operations}
use quorum_kv.Harness.Run.{failed, count_outcome, summary, run, status, exit_of}
use quorum_kv.Harness.Run.Good.{IsUsable, names_of}
use quorum_kv.Harness.Run.Recorded.{is_classified}
use quorum_kv.Harness.Run.Log.{condition_after}
use quorum_kv.Harness.Run.Verdict.{check_names}
use quorum_kv.Harness.Run.Ended.{Done, Done-run}

outcome_cases :
    (x : String)
    → is_classified x ≡ true
    → (x ≡ outcome_ok) ⊎ (x ≡ outcome_failed) ⊎ (x ≡ outcome_unknown)
outcome_cases x h =
    ground (arith, eq_iff x outcome_ok, eq_iff x outcome_failed, eq_iff x outcome_unknown)

all_counted :
    (keys : List String) (ops : List Op)
    → All (IsUsable keys) ops
    → count_outcome outcome_ok ops
        + count_outcome outcome_failed ops
        + count_outcome outcome_unknown ops
      ≡ length ops
unfolding count_outcome
all_counted keys [] h = refl
all_counted keys (o ∷ ops) (u, h) =
    let rest = all_counted keys ops h in
    elim (outcome_cases o.outcome u.classified) [
      | inl p ↦ rw p (omega (arith, rest))
      | inr (inl p) ↦ rw p (omega (arith, rest))
      | inr (inr p) ↦ rw p (omega (arith, rest))
    ]

-- with no failed check, every one has passed
all_pass : (cs : List CheckResult) → failed cs ≡ false → All (λ c. c.pass ≡ true) cs
unfolding failed
all_pass [] h = tt
all_pass (c ∷ cs) h = (ground arith, all_pass cs (ground (arith, h)))

Deletes-passed :
    (keys : List String) (ops : List Op) (cs : List CheckResult)
    → has_key (names_of cs) reset_check ≡ true
    → All (λ c. c.pass ≡ true) cs
    → All (ResetBy keys ops) cs
    → Deletes true keys ops
unfolding has_key
Deletes-passed keys ops [] h p r = absurd cc
Deletes-passed keys ops (c ∷ cs) h (p, ps) (r, rs) = elim (Bool-cases (c.name == reset_check)) [
  | inl x ↦ subst (λ b. Deletes b keys ops) p (r (ground (arith, x, eq_iff c.name reset_check)))
  | inr x ↦ Deletes-passed keys ops cs (ground (arith, x, h)) ps rs
]

check_names-reset : (skip : Bool) → has_key (check_names skip) reset_check ≡ true
unfolding has_key
check_names-reset true = refl
check_names-reset false = refl

module _ {W : Type 0} (e : Env W) (o : Options) (w : W) (report : Report) (s : State W) where
  -- The fault log of a report is in order: in it, a node is killed or isolated only where each kill and
  -- isolation before has been followed by a heal or, for a kill, the start of that node; a start follows
  -- the kill of the same node; and behind the last event no kill or isolation is left so. This is of the events that were
  -- logged, and says nothing of whether docker carried the commands out.
  pub run-heals : run e o w ≡ some (ok report, s) → condition_after report.faults ≡ some healed
  unfolding summary
  run-heals h = let d = Done-run e o w report s h in rw d.reports d.good.log

  -- A run that ends with a report has recorded only operations that the checker can use: each is a
  -- put, a get, a delete or a cas, has one of the three outcomes, and its key is one of reset_keys. If
  -- the report has the check of the reset, the records begin with a delete of each of these keys, in
  -- their order, and each of these deletes was acknowledged if that check has passed.
  pub run-records :
      run e o w ≡ some (ok report, s)
      → All (IsUsable (reset_keys o.num_keys)) s.runner.recorded
        × All (ResetBy (reset_keys o.num_keys) s.runner.recorded) report.checks
  unfolding summary
  run-records h = let d = Done-run e o w report s h in (d.good.usable, rw d.reports d.good.reset)

  -- The three counts of outcomes in a report add up to its number of operations.
  pub run-counts :
      run e o w ≡ some (ok report, s)
      → report.ops_ok + report.ops_failed + report.ops_unknown ≡ report.ops_total
  unfolding summary count_outcome
  run-counts h =
      let d = Done-run e o w report s h in
      rw d.reports (all_counted (reset_keys o.num_keys) s.runner.recorded d.good.usable)

  -- what a good end means
  pub record Passed : Type 0 where
    pub names : names_of report.checks ≡ check_names o.skip_faults
    pub all_passed : All (λ c. c.pass ≡ true) report.checks
    pub reset : Deletes true (reset_keys o.num_keys) s.runner.recorded
    pub allowed_orders : (k : String) → AllowedOrder k (part k (to_operations s.runner.recorded))

  none_failed : Done e o report s → report.all_passed ≡ true → failed s.runner.report.checks ≡ false
  unfolding summary
  none_failed d h = ground (arith, h, ap (λ r. r.all_passed) d.reports)

  All-IsKnown : (ops : List Op) → All (IsUsable (reset_keys o.num_keys)) ops → All IsKnown ops
  All-IsKnown [] h = tt
  All-IsKnown (p ∷ ops) (u, h) = (u.known_op, All-IsKnown ops h)

  not_failed :
      {P : Type 0}
      → failed s.runner.report.checks ≡ false
      → (failed s.runner.report.checks ≡ true) ⊎ P
      → P
  not_failed f (inl t) = absurd (cc)
  not_failed f (inr p) = p

  passed : Done e o report s → report.all_passed ≡ true → Passed
  unfolding summary
  passed d h =
      let f = none_failed d h in
      let names = not_failed f d.good.names in
      let all_passed = all_pass s.runner.report.checks f in
      record {
        names = rw d.reports names;
        all_passed = rw d.reports all_passed;
        reset =
            Deletes-passed (reset_keys o.num_keys) s.runner.recorded s.runner.report.checks
              (rw names (check_names-reset o.skip_faults)) all_passed d.good.reset;
        allowed_orders =
            check-AllowedOrder e.porcupine s.runner.recorded (300 * second)
              (All-IsKnown s.runner.recorded d.good.usable) (not_failed f d.verdict);
      }

  -- If the harness ends with status 0, nothing of the run was left out: its checks are all those of a
  -- run with these options, each of them has passed, the records begin with an acknowledged delete of
  -- each key of the reset, and for every key the operations that ToOperations
  -- makes of the records have an order that respects their times, and in which, against a store that
  -- starts empty, each get saw the key's presence and its value where present, and each cas whose outcome
  -- is known won or lost as recorded. Nothing is said of what the puts and deletes reported, nor of the
  -- value that a cas reported.
  pub run-passed : run e o w ≡ some (ok report, s) → exit_of e (ok report) ≡ status 0 → Passed
  unfolding exit_of
  run-passed h z = passed (Done-run e o w report s h) (ground (arith, z))
