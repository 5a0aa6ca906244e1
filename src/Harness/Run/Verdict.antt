-- ===== src/Harness/Run/Verdict.antt =====
-- The phases in their order, from the new runner to the report.
use quorum_kv.Prelude.{String, ◌≡◌, refl, Bool, true, false, List, [], ◌∷◌, ◌*◌}
use quorum_kv.History.{Op}
use quorum_kv.Harness.Runner.{CheckResult, Options, Env, State, outside, asks, check, second}
use mathlib.Core.List.{◌++◌}
use quorum_kv.Harness.Runner.Rules.{
  Triple-both, Triple, Any, Triple-pure, Triple-if, Triple-bind, Triple-weaken, Triple-strengthen,
  Triple-look, Triple-outside, Triple-asks,
}
use quorum_kv.Harness.Run.Good.{Good, Good-check}
use quorum_kv.Harness.Run.Faulty.{Healed}
use quorum_kv.Prelude.{inl, inr, ◌⊎◌, ap}
use mathlib.Core.Path.{subst}
use quorum_kv.Checker.Check
use quorum_kv.Harness.Phases.Final.{drawing, phase_linearizability}
use quorum_kv.Harness.Run.{
  failed, fault_phases, faults_unless, cluster_phases, unless_broken, phases,
}
use quorum_kv.Harness.Run.Good.{failed_now}
use quorum_kv.Harness.Run.Quiet.{
  Fresh, phase_checker_self_test-Fresh, self_test_names, phase_checker_self_test-Good,
  phase_smoke-Good,
}
use quorum_kv.Harness.Run.Cleared.{phase_reset-Good}
use quorum_kv.Harness.Run.Rounds.{phase_cas_contention-Good}
use quorum_kv.Harness.Run.Durable.{phase_leader_kill_durability-Good}
use quorum_kv.Harness.Run.Isolated.{phase_minority_refuses_writes-Good}
use quorum_kv.Harness.Run.Shaken.{phase_chaos-Good, phase_convergence-Good}

abbrev quiet_names : List String
quiet_names =
    "checker-rejects-known-bad" ∷ "checker-accepts-known-good" ∷ "reset-initial-state"
    ∷ "smoke-all-nodes" ∷ "cas-single-winner" ∷ []

abbrev fault_names : List String
fault_names =
    "acked-write-survives-leader-kill" ∷ "minority-refuses-writes" ∷ "majority-keeps-serving"
    ∷ "chaos-completed" ∷ "replicas-converge" ∷ []

abbrev names_before : Bool → List String
names_before true = quiet_names
names_before false = quiet_names ++ fault_names

-- the checks of a whole run, without the phases that inject faults or with them
abbrev pub check_names : Bool → List String
check_names skip = names_before skip ++ "history-linearizable" ∷ []

module _ {W : Type 0} (e : Env W) where
  -- A check has failed, or Check accepts all that is recorded.
  abbrev pub Verdict : State W → Type 0
  Verdict s =
      (failed s.runner.report.checks ≡ true)
      ⊎ ((Check.check e.porcupine s.runner.recorded (300 * second)).linearizable ≡ true)

  module _ {o : Options} where
    fault_phases-Good :
        Triple
          (Good o quiet_names Healed)
          Any
          (Good o (quiet_names ++ fault_names) Healed)
          (fault_phases e)
    unfolding fault_phases
    fault_phases-Good = Triple-bind (phase_leader_kill_durability-Good e) λ a _.
        Triple-bind (phase_minority_refuses_writes-Good e)
          λ b _. Triple-bind (phase_chaos-Good e) λ c _. phase_convergence-Good e

    faults_unless-Good :
        (skip : Bool)
        → Triple
            (Good o quiet_names Healed)
            Any
            (Good o (names_before skip) Healed)
            (faults_unless e skip)
    faults_unless-Good true = Triple-pure _ tt
    faults_unless-Good false = fault_phases-Good

    skip_faults-Good :
        {ns : List String}
        → Triple
            (Good {W = W} o ns Healed)
            (λ b. b ≡ o.skip_faults)
            (Good o ns Healed)
            (asks (λ r. r.options.skip_faults))
    unfolding asks
    skip_faults-Good = record { at = λ s g. (ap (λ p. p.skip_faults) g.same_options, g) }

  verdict_of :
      (cs : List CheckResult) (c : CheckResult) (b : Bool)
      → c.pass ≡ b
      → (failed (cs ++ c ∷ []) ≡ true) ⊎ (b ≡ true)
  verdict_of cs c true h = inr refl
  verdict_of cs c false h = inl (failed_now cs c h)

  module _ (o : Options) (ns : List String) where
    -- good, with these records
    abbrev At : List Op → State W → Type 0
    At ops s = Good o ns Healed s × (s.runner.recorded ≡ ops)

    At-outside :
        {A : Type 0} (ops : List Op) (f : W → A × W) → Triple (At ops) Any (At ops) (outside f)
    At-outside ops f = Triple-outside f λ s w (g, h). (
      record {
        same_options = g.same_options;
        usable = g.usable;
        reset = g.reset;
        log = g.log;
        names = g.names;
      },
      h,
    )

    drawing-At : (ops : List Op) (path : String) → Triple (At ops) Any (At ops) (drawing e path)
    unfolding drawing
    drawing-At ops path = Triple-bind (At-outside ops _) λ b _. Triple-pure _ tt

    last_check :
        (ops : List Op) (detail : String)
        → Triple
            (At ops)
            Any
            (λ s. Good o (ns ++ "history-linearizable" ∷ []) Healed s × Verdict s)
            (check "history-linearizable"
              (Check.check e.porcupine ops (300 * second)).linearizable
              detail)
    last_check ops detail = record {
      at = λ s (g, h).
          let pass = (Check.check e.porcupine ops (300 * second)).linearizable in
          let after =
            (Good-check {ns = ns} {L = Healed} "history-linearizable" pass detail refl).at s g in
          unfold check in
          (
            tt,
            (
              after.1,
              rw h (
                  verdict_of s.runner.report.checks
                    (record { name = "history-linearizable"; pass = pass; detail = detail }) pass
                    refl),
            ),
          );
    }

    phase_linearizability-Verdict :
        Triple
          (Good o ns Healed)
          Any
          (λ s. Good o (ns ++ "history-linearizable" ∷ []) Healed s × Verdict s)
          (phase_linearizability e)
    unfolding phase_linearizability
    phase_linearizability-Verdict = Triple-look _ λ ops. Triple-bind (Triple-asks _) λ o' _.
        Triple-bind (Triple-if _ (Triple-pure _ tt) (drawing-At ops _)) λ more _. last_check ops _

  module _ (o : Options) where
    cluster_phases-Good :
        Triple
          (λ s. Good o self_test_names Healed s × Fresh s)
          Any
          (λ s. Good o (check_names o.skip_faults) Healed s × Verdict s)
          (cluster_phases e)
    unfolding cluster_phases
    cluster_phases-Good = Triple-bind (phase_reset-Good e) λ a _.
        Triple-bind (phase_smoke-Good e) λ b _. Triple-bind (phase_cas_contention-Good e) λ c _.
          Triple-bind skip_faults-Good λ skip h.
            Triple-bind
              (subst
                (λ x.
                  Triple (Good o quiet_names Healed) Any (Good o (names_before x) Healed)
                    (faults_unless e skip))
                h (faults_unless-Good skip))
              λ d _. phase_linearizability-Verdict o (names_before o.skip_faults)

    broken :
        (ns : List String) (s : State W)
        → (Good o self_test_names Healed s × Fresh s) × (failed s.runner.report.checks ≡ true)
        → Good o ns Healed s × Verdict s
    broken ns s ((g, _), h) = (
      record {
        same_options = g.same_options;
        usable = g.usable;
        reset = g.reset;
        log = g.log;
        names = inl h;
      },
      inl h,
    )

    unless_broken-Good :
        (b : Bool)
        → Triple
            (λ s. (Good o self_test_names Healed s × Fresh s) × (failed s.runner.report.checks ≡ b))
            Any
            (λ s. Good o (check_names o.skip_faults) Healed s × Verdict s)
            (unless_broken e b)
    unless_broken-Good true = Triple-weaken (broken _) (Triple-pure _ tt)
    unless_broken-Good false = Triple-strengthen (λ s (g, h). g) cluster_phases-Good

    pub phases-Good :
        Triple
          (λ s. Good o [] Healed s × Fresh s)
          Any
          (λ s. Good o (check_names o.skip_faults) Healed s × Verdict s)
          (phases e)
    unfolding phases
    phases-Good =
        Triple-bind (Triple-both (phase_checker_self_test-Good e) (phase_checker_self_test-Fresh e))
          λ u _. Triple-look (λ r. failed r.report.checks) unless_broken-Good
