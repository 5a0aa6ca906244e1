-- ===== src/Harness/Run/Finishes.antt =====
-- internal/harness/run.go: a run comes to an end.
use quorum_kv.Prelude.{
  ◌≡◌, refl, Bool, true, false, Option, none, some, arith, length, ℕ, ◌+◌, ◌*◌, ◌<◌, ◌≤◌,
}
use quorum_kv.Harness.Runner.{Env, Options, State}
use quorum_kv.Harness.Runner.Rules.{Any}
use quorum_kv.Harness.Runner.Total.{
  Lawful, Ends, Total, Total-pure, Total-outside, Total-asks, Total-bind,
}
use quorum_kv.Prelude.{String}
use quorum_kv.Harness.Runner.{Report, second}
use quorum_kv.Harness.Run.Timed.{pause}
use quorum_kv.Harness.Run.Patient.{
  HasMajority, phase_leader_kill_durability-Total, phase_minority_refuses_writes-Total,
  phase_convergence-Total,
}
use quorum_kv.Harness.Run.Chaotic.{phase_chaos-Total}
use quorum_kv.Harness.Run.Brief.{
  phase_checker_self_test-Total, phase_reset-Total, phase_smoke-Total, phase_cas_contention-Total,
  phase_linearizability-Total,
}
use quorum_kv.Harness.Run.{
  Try, new_runner, write_report, finish, fault_phases, faults_unless, cluster_phases, unless_broken,
  phases, run_in, run_from, run,
}

-- Options with which a run has what it needs: nodes, of which one is left besides any other, and a key.
pub record Usable (o : Options) : Type 0 where
  pub some_node : 0 < length o.nodes
  pub majority_left : HasMajority o.nodes
  pub some_key : 0 < o.num_keys

module _ {W : Type 0} {e : Env W} (l : Lawful e) {o : Options} (u : Usable o) where
  module _ (p : 90 * second + pause ≤ e.patience * pause)
      (q : o.duration + pause ≤ e.patience * pause) where
    faults_unless-Total : {c : ℕ} (skip : Bool) → Total e o c c Any (faults_unless e skip)
    unfolding fault_phases
    faults_unless-Total true = Total-pure _ tt
    faults_unless-Total false =
        Total-bind (phase_leader_kill_durability-Total l u.some_node p) λ a _.
          Total-bind (phase_minority_refuses_writes-Total l u.some_node u.majority_left p) λ b _.
            Total-bind (phase_chaos-Total l u.some_node u.some_key q)
              λ c _. phase_convergence-Total l p

    unless_broken-Total : {c : ℕ} (b : Bool) → Total e o c c Any (unless_broken e b)
    unfolding cluster_phases
    unless_broken-Total true = Total-pure _ tt
    unless_broken-Total false = Total-bind (phase_reset-Total l u.some_node) λ a _.
        Total-bind (phase_smoke-Total l u.some_node) λ b _.
          Total-bind (phase_cas_contention-Total l u.some_node) λ c _.
            Total-bind (Total-asks _)
              λ skip _. Total-bind (faults_unless-Total skip) λ d _. phase_linearizability-Total l

    write_report-Total :
        {c : ℕ} (dir : String) (report : Report) (x : Option String)
        → Total e o c c Any (write_report e dir report x)
    unfolding write_report
    write_report-Total dir report (some x) = Total-pure _ tt
    write_report-Total dir report none =
        Total-bind (Total-outside {V = Any} _ (λ w. tt) (l.write_file_later _ _))
          λ y _. Total-pure _ tt

    run_in-Total : {c : ℕ} (x : Option String) → Total e o c c Any (run_in e x)
    unfolding phases finish
    run_in-Total (some x) = Total-pure _ tt
    run_in-Total none =
        Total-bind
          (Total-bind (phase_checker_self_test-Total l)
            λ a _. Total-bind (Total-asks _) λ b _. unless_broken-Total b)
          λ a _. Total-bind (Total-outside {V = Any} _ (λ w. tt) (λ w. omega arith)) λ now _.
            Total-bind (Total-asks _) λ r _.
              Total-bind (Total-outside {V = Any} _ (λ w. tt) (l.write_file_later _ _))
                λ y _. write_report-Total _ _ y

    run_from-Total : {c : ℕ} → Total e o c c Any (run_from e)
    unfolding run_from
    run_from-Total = Total-bind (Total-asks _) λ dir _.
        Total-bind (Total-outside {V = Any} _ (λ w. tt) (l.mkdir_all_later _))
          λ made _. run_in-Total made

ended :
    {W A : Type 0} (Q : A → State W → Type 0) (x : Option (A × State W))
    → Ends Q x
    → (a : A) × (s : State W) × (x ≡ some (a, s))
ended Q none h = absurd h
ended Q (some (a, s)) h = (a, s, refl)

-- In a world whose clock does not go back and moves on with each sleep, whose random numbers are below
-- their bounds, and in which each call of Invoke comes to a round that is a success, of unknown outcome or
-- late, a run comes to an end, with a report or with an error. It must have nodes of which one is left
-- besides any other, and a key, and its patience must be enough: with half a second for each of its rounds
-- it makes half a second more than 90 seconds and than the length of the chaos phase.
pub run-ends :
    {W : Type 0} (e : Env W) (o : Options) (w : W)
    → Lawful e
    → Usable o
    → 90 * second + pause ≤ e.patience * pause
    → o.duration + pause ≤ e.patience * pause
    → (x : Try String Report) × (s : State W) × (run e o w ≡ some (x, s))
unfolding run new_runner
run-ends e o w l u p q = ended _ _ ((run_from-Total l u p q {c = 0}).at _ (refl, omega arith))
