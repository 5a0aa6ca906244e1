-- ===== src/Harness/Run/Brief.antt =====
-- The phases without a loop on the clock come to an end in a lawful world.
use quorum_kv.Prelude.{
  ok, err, Try, ◌≡◌, refl, true, false, none, some, List, [], ◌∷◌, arith, length, ℕ, zero, suc, ◌+◌,
  ◌*◌, ◌<◌,
}
use quorum_kv.History.{Op}
use quorum_kv.Harness.Nodes.{Node}
use quorum_kv.Harness.Invoke.{Client, is_some}
use quorum_kv.Harness.Runner.{Env, Options}
use quorum_kv.Harness.Runner.Rules.{Any}
use quorum_kv.Harness.Runner.Total.{
  Lawful, Total, Total-pure, Total-outside, Total-asks, Total-or_stuck, Total-either, Total-bind,
}
use quorum_kv.Prelude.{String}
use quorum_kv.Prelude.Int.{pos}
use quorum_kv.Harness.Runner.{new_client, request, second}
use quorum_kv.Harness.Workload.{get_elem?}
use quorum_kv.Harness.Runner.Steady.{Total-options, Total-check, Total-invoke}
use quorum_kv.Harness.Phases.Smoke.{Tally, smoke_loop, phase_smoke}
use quorum_kv.Harness.Phases.SelfTest.{
  phase_checker_self_test, read_history, accept_good, reject_bad,
}
use quorum_kv.Harness.Phases.Reset.{reset_loop, phase_reset}
use quorum_kv.Harness.Phases.Keys.{reset_keys, range}
use quorum_kv.Harness.Phases.Contention.{
  contend, duel, contention_round, contention_loop, contenders, phase_cas_contention, replicate,
  without_at,
}
use quorum_kv.Harness.Phases.Final.{drawing, phase_linearizability}

-- the place in a list of a number below its length
pub get_elem?-below :
    {A : Type 0} (xs : List A) (i : ℕ) → i < length xs → is_some (get_elem? xs i) ≡ true
unfolding get_elem?
get_elem?-below [] i h = absurd (omega arith)
get_elem?-below (x ∷ xs) zero h = refl
get_elem?-below (x ∷ xs) (suc i) h = get_elem?-below xs i (omega arith)

length-without_at :
    {A : Type 0} (xs : List A) (i n : ℕ)
    → i < length xs
    → length xs ≡ suc n
    → length (without_at xs i) ≡ n
unfolding without_at
length-without_at [] i n h l = absurd (omega arith)
length-without_at (x ∷ xs) zero n h l = omega (arith, l)
length-without_at (x ∷ []) (suc i) n h l = absurd (omega arith)
length-without_at (x ∷ y ∷ ys) (suc i) zero h l = absurd (omega (arith, l))
length-without_at (x ∷ y ∷ ys) (suc i) (suc n) h l =
    let rest = length-without_at (y ∷ ys) i n (omega arith) (omega (arith, l)) in
    omega (arith, rest)

module _ {W : Type 0} {e : Env W} (l : Lawful e) {o : Options} {c : ℕ} where
  read_history-Total : (path : String) → Total e o c c Any (read_history e path)
  unfolding read_history
  read_history-Total path =
      Total-bind (Total-outside {V = Any} _ (λ w. tt) (l.read_file_later path))
        λ b _. Total-pure _ tt

  accept_good-Total : (x : Try String (List Op)) → Total e o c c Any (accept_good e x)
  accept_good-Total (err m) = Total-check _ _ _
  accept_good-Total (ok good) = Total-check _ _ _

  reject_bad-Total :
      (dir : String) (x : Try String (List Op)) → Total e o c c Any (reject_bad e dir x)
  reject_bad-Total dir (err m) = Total-check _ _ _
  reject_bad-Total dir (ok bad) =
      Total-bind (Total-check _ _ _)
        λ u _. Total-bind (read_history-Total _) λ x _. accept_good-Total x

  pub phase_checker_self_test-Total : Total e o c c Any (phase_checker_self_test e)
  unfolding phase_checker_self_test
  phase_checker_self_test-Total =
      Total-bind (Total-asks _)
        λ dir _. Total-bind (read_history-Total _) λ bad _. reject_bad-Total dir bad

  reset_loop-Total :
      (client : Client) (ks : List String) (n : ℕ)
      → 0 < length client.nodes
      → Total e o c c Any (reset_loop e client ks n)
  unfolding reset_loop
  reset_loop-Total client [] n h = Total-pure _ tt
  reset_loop-Total client (k ∷ ks) n h =
      Total-bind (Total-invoke l client _ (20 * second) false none h)
        λ a same. reset_loop-Total a.0 ks _ (rw same h)

  pub phase_reset-Total : 0 < length o.nodes → Total e o c c Any (phase_reset e)
  unfolding phase_reset new_client
  phase_reset-Total h = Total-bind Total-options λ o' same.
      Total-bind (reset_loop-Total _ (reset_keys o'.num_keys) 0 (rw same h))
        λ n _. Total-check _ _ _

  smoke_loop-Total :
      (client : Client) (nodes : List Node) (i : ℕ) (t : Tally)
      → 0 < length client.nodes
      → Total e o c c Any (smoke_loop e client nodes i t)
  unfolding smoke_loop
  smoke_loop-Total client [] i t h = Total-pure _ tt
  smoke_loop-Total client (n ∷ ns) i t h =
      Total-bind (Total-invoke l client _ (20 * second) false (some n) h) λ a same.
        Total-either _ (smoke_loop-Total a.0 ns (i + 1) _ (rw same h)) (
          Total-bind (Total-invoke l a.0 _ (20 * second) false (some n) (rw same h))
            λ b same'. smoke_loop-Total b.0 ns (i + 1) _ (rw (same', same) h))

  pub phase_smoke-Total : 0 < length o.nodes → Total e o c c Any (phase_smoke e)
  unfolding phase_smoke new_client
  phase_smoke-Total h =
      Total-bind Total-options
        λ o' same. Total-bind (smoke_loop-Total _ o'.nodes 0 _ (rw same h)) λ t _. Total-check _ _ _

  contend-Total :
      (nodes : List Node) (round n : ℕ) (pending : List ℕ) (results : List Op)
      → 0 < length nodes
      → length pending ≡ n
      → Total e o c c Any (contend e nodes round n pending results)
  unfolding contend new_client
  contend-Total nodes round zero pending results h p = Total-pure _ tt
  contend-Total nodes round (suc n) pending results h p =
      Total-bind (Total-outside {V = λ i. i < suc n} _ (l.pick_below n) (l.pick_later (suc n)))
        λ i below.
          Total-bind (Total-or_stuck _ (get_elem?-below pending i (omega (arith, below, p)))) λ j _.
            Total-bind (Total-invoke l _ _ (20 * second) false none h) λ a _.
              contend-Total nodes round n (without_at pending i) _ h
                (length-without_at pending i n (omega (arith, below, p)) p)

  duel-Total :
      (nodes : List Node) (round : ℕ) (t : Tally)
      → 0 < length nodes
      → Total e o c c Any (duel e nodes round t)
  unfolding duel range
  duel-Total nodes round t h =
      Total-bind
        (contend-Total nodes round contenders (range 0 contenders)
          (replicate contenders (request (pos 0) "" "" "" none)) h refl)
        λ rs _. Total-pure _ tt

  contention_round-Total :
      (nodes : List Node) (round : ℕ) (t : Tally)
      → 0 < length nodes
      → Total e o c c Any (contention_round e nodes round t)
  unfolding contention_round new_client
  contention_round-Total nodes round t h =
      Total-bind (Total-invoke l _ _ (20 * second) false none h)
        λ a _. Total-either _ (Total-pure _ tt) (duel-Total nodes round t h)

  contention_loop-Total :
      (nodes : List Node) (n round : ℕ) (t : Tally)
      → 0 < length nodes
      → Total e o c c Any (contention_loop e nodes n round t)
  unfolding contention_loop
  contention_loop-Total nodes zero round t h = Total-pure _ tt
  contention_loop-Total nodes (suc n) round t h =
      Total-bind (contention_round-Total nodes round t h)
        λ t' _. contention_loop-Total nodes n (round + 1) t' h

  pub phase_cas_contention-Total : 0 < length o.nodes → Total e o c c Any (phase_cas_contention e)
  unfolding phase_cas_contention
  phase_cas_contention-Total h = Total-bind Total-options λ o' same.
      Total-bind
        (contention_loop-Total o'.nodes 3 0 (record { ok_all = true; detail = "" }) (rw same h))
        λ t _. Total-check _ _ _

  drawing-Total : (path : String) → Total e o c c Any (drawing e path)
  unfolding drawing
  drawing-Total path =
      Total-bind (Total-outside {V = Any} _ (λ w. tt) (l.visualize_later path))
        λ b _. Total-pure _ tt

  pub phase_linearizability-Total : Total e o c c Any (phase_linearizability e)
  unfolding phase_linearizability
  phase_linearizability-Total = Total-bind (Total-asks _) λ ops _. Total-bind (Total-asks _) λ o' _.
      Total-bind (Total-either _ (Total-pure _ tt) (drawing-Total _)) λ more _. Total-check _ _ _
