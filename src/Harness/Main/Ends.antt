-- ===== src/Harness/Main/Ends.antt =====
-- How the main of cmd/harness ends.
use quorum_kv.Prelude.{
  String, ◌≡◌, refl, ap, sym, ◌∙◌, false, Option, none, some, List, [], ◌∷◌, ◌==◌, eq_iff, arith,
  Try, ok, err, inl, inr, Bool-cases, ◌+◌, ◌*◌, ◌<◌, ◌≤◌,
}
use quorum_kv.Specs.{SpecError}
use quorum_kv.Harness.Nodes.{Node, parse_nodes}
use quorum_kv.Harness.Runner.{Env, State, Report, second, pure, outside, ◌>>=◌}
use quorum_kv.Harness.Runner.Total.{Lawful}
use quorum_kv.Harness.Phases.SelfTest.{read_history}
use quorum_kv.Harness.Run.{new_runner, Exit, status, run, exit_of, check_only}
use quorum_kv.Harness.Run.Timed.{pause}
use quorum_kv.Harness.Run.Majority.{two-HasMajority}
use quorum_kv.Harness.Run.Finishes.{Usable, run-ends}
use quorum_kv.Harness.Run.Outcome.{Passed, run-passed}
use quorum_kv.Harness.Main.{Flags, default_nodes, options_of, ended, run_with, world_of, main}

abbrev at_port : String → String → String → String → Node
at_port id url container ip = record { id = id; url = url; container = container; ip = ip }

abbrev nodes_of_defaults : List Node
nodes_of_defaults =
    at_port "node1" "http://localhost:8081" "quorum-node1" "172.28.0.11"
    ∷ at_port "node2" "http://localhost:8082" "quorum-node2" "172.28.0.12"
    ∷ at_port "node3" "http://localhost:8083" "quorum-node3" "172.28.0.13"
    ∷ []

parse_nodes-defaults : parse_nodes default_nodes ≡ ok nodes_of_defaults
unfolding parse_nodes
parse_nodes-defaults = refl

Usable-defaults : (f : Flags) → 0 < f.keys → Usable (options_of f nodes_of_defaults)
Usable-defaults f k = record {
  some_node = omega arith;
  majority_left = two-HasMajority _ _ _ refl;
  some_key = k;
}

module _ {W : Type 0} (e : Env W) where
  abbrev blank : Flags → W → State W
  blank f w = record { runner = new_runner (e.clock w) (options_of f []); world = w }

  main-runs :
      (f : Flags) (w : W) → f.check_file ≡ "" → main e f w ≡ run_with e f w (parse_nodes f.nodes)
  unfolding main
  main-runs f w h = rw h

  main-checks :
      (f : Flags) (w : W)
      → (f.check_file == "") ≡ false
      → main e f w ≡ world_of e (check_only e f.check_file (blank f w))
  unfolding main
  main-checks f w h = rw h

  check_only-ends :
      (path : String) (s : State W)
      → (x : Exit) × (t : State W) × (check_only e path s ≡ some (x, t))
  unfolding check_only read_history pure outside ◌>>=◌
  check_only-ends path s = (_, _, refl)

-- In a world whose clock does not go back and moves on with each sleep, whose random numbers are below
-- their bounds, and in which each call of Invoke comes to a round that is a success, of unknown outcome or
-- late, the harness that is called with the default nodes and some key comes to an end, whether it runs
-- or checks a file. Its patience must be enough: with half a second for each of its rounds it makes half
-- a second more than 90 seconds and than the length of the chaos phase.
pub main-ends :
    {W : Type 0} (e : Env W) (f : Flags) (w : W)
    → Lawful e
    → f.nodes ≡ default_nodes
    → 0 < f.keys
    → 90 * second + pause ≤ e.patience * pause
    → f.duration + pause ≤ e.patience * pause
    → (x : Exit) × (w' : W) × (main e f w ≡ some (x, w'))
main-ends e f w l n k p q = elim (Bool-cases (f.check_file == "")) [
  | inl c ↦
      (let (x, s, h) = run-ends e (options_of f nodes_of_defaults) w l (Usable-defaults f k) p q in
        (
          exit_of e x,
          s.world,
          main-runs e f w (ground (arith, c, eq_iff f.check_file ""))
              ∙ ap (run_with e f w) (ap parse_nodes n ∙ parse_nodes-defaults)
              ∙ ap (ended e) h,
        ))
  | inr c ↦
      (let (x, t, h) = check_only-ends e f.check_file (blank e f w) in
        (x, t.world, main-checks e f w c ∙ ap (world_of e) h))
]

-- What it means that the harness has run and ended with status 0.
pub record RanWell {W : Type 0} (e : Env W) (f : Flags) (w w' : W) : Type 0 where
  pub nodes : List Node
  pub parsed : parse_nodes f.nodes ≡ ok nodes
  pub report : Report
  pub last : State W
  pub ran : run e (options_of f nodes) w ≡ some (ok report, last)
  pub same_world : last.world ≡ w'
  pub passed : Passed e (options_of f nodes) w report last

module _ {W : Type 0} (e : Env W) (f : Flags) (w w' : W) where
  RanWell-ended :
      (nodes : List Node) (x : Option (Try String Report × State W))
      → parse_nodes f.nodes ≡ ok nodes
      → run e (options_of f nodes) w ≡ x
      → ended e x ≡ some (status 0, w')
      → RanWell e f w w'
  RanWell-ended nodes none p r h = absurd cc
  RanWell-ended nodes (some (err m, s)) p r h = unfold exit_of in absurd cc
  RanWell-ended nodes (some (ok report, s)) p r h = record {
    nodes = nodes;
    parsed = p;
    report = report;
    last = s;
    ran = r;
    same_world = cc;
    passed = run-passed e (options_of f nodes) w report s r cc;
  }

  RanWell-run_with :
      (x : Try SpecError (List Node))
      → parse_nodes f.nodes ≡ x
      → run_with e f w x ≡ some (status 0, w')
      → RanWell e f w w'
  RanWell-run_with (err m) p h = absurd cc
  RanWell-run_with (ok nodes) p h = RanWell-ended nodes (run e (options_of f nodes) w) p refl h

  -- If the harness, not asked to check a file, ends with status 0, its nodes were read from the flag, and
  -- it has run with the options of the flags to a report that left nothing out, in which every check has
  -- passed; the records begin with an acknowledged delete of each key of the reset; and for every key the operations that ToOperations makes of the records have an order that
  -- respects their times, and in which, against a store that starts empty, each get saw the key's
  -- presence and its value where present, and each cas whose outcome is known won or lost as recorded.
  -- Nothing is said of what the puts and deletes reported, nor of the value that a cas reported.
  pub main-RanWell : f.check_file ≡ "" → main e f w ≡ some (status 0, w') → RanWell e f w w'
  main-RanWell c h = RanWell-run_with (parse_nodes f.nodes) refl (sym (main-runs e f w c) ∙ h)
