-- ===== src/Harness/Phases/Contention.antt =====
-- internal/harness/run.go: phaseCASContention.
use quorum_kv.Prelude.{
  String, Bool, true, false, ◌&&◌, ◌||◌, not, none, some, List, [], ◌∷◌, ◌==◌, if◌then◌else◌, ℕ,
  zero, suc, ◌+◌, ◌*◌, ltb, leb, nat_eq,
}
use quorum_kv.Prelude.Int.{pos}
use quorum_kv.History.{Op, outcome_ok, outcome_unknown}
use quorum_kv.Harness.Nodes.{Node}
use quorum_kv.Harness.Runner.{
  Env, Run, pure, or_stuck, outside, asks, ◌>>=◌, check, new_client, request, invoke_op, second,
}
use Prim.Native.String.{◌++◌}
use quorum_kv.Fmt.{decimal}
use quorum_kv.Harness.Workload.{get_elem?}
use quorum_kv.Harness.Phases.Keys.{arena_key, range}
use quorum_kv.Harness.Phases.Smoke.{Tally, fail_with}

-- results[i] = v; out of range nothing is changed
unfoldable pub set {ℓ} : {A : Type ℓ} → List A → ℕ → A → List A
set [] i v = []
set (x ∷ xs) zero v = v ∷ xs
set (x ∷ xs) (suc i) v = x ∷ set xs i v

-- the list without its element at a place
unfoldable pub without_at {ℓ} : {A : Type ℓ} → List A → ℕ → List A
without_at [] i = []
without_at (x ∷ xs) zero = xs
without_at (x ∷ xs) (suc i) = x ∷ without_at xs i

unfoldable pub replicate {ℓ} : {A : Type ℓ} → ℕ → A → List A
replicate zero a = []
replicate (suc n) a = a ∷ replicate n a

-- wins and unknowns
unfoldable pub tally : List Op → ℕ × ℕ
tally [] = (0, 0)
tally (r ∷ rs) =
    let (wins, unknowns) = tally rs in
    if r.outcome == outcome_ok && r.ok
    then (wins + 1, unknowns)
    else if r.outcome == outcome_unknown
    then (wins, unknowns + 1)
    else (wins, unknowns)

unfoldable pub round_ok : ℕ → ℕ → Bool
round_ok wins unknowns = nat_eq unknowns 0 && nat_eq wins 1 || ltb 0 unknowns && leb wins 1

unfoldable pub winner_value : ℕ → ℕ → String
unfolding decimal
winner_value round i = "winner-" ++ (decimal round ++ ("-" ++ decimal i))

unfoldable pub base_value : ℕ → String
unfolding decimal
base_value round = "base-" ++ decimal round

abbrev pub contenders : ℕ
contenders = 6

module _ {W : Type 0} (e : Env W) where
  -- The goroutines that have not ended, in the order in which the world lets them end. Each has a
  -- client of its own; what they share is the recorder, which each changes once, at its end.
  unfoldable pub contend : List Node → ℕ → ℕ → List ℕ → List Op → Run W (List Op)
  unfolding invoke_op request new_client set without_at get_elem? arena_key base_value winner_value
  contend nodes round zero pending results = pure results
  contend nodes round (suc n) pending results = do
    at_ ← outside (e.pick (suc n))
    i ← or_stuck (get_elem? pending at_)
    (_, res) ←
        invoke_op e (new_client (pos (101 + i)) nodes)
          (request (pos (101 + i)) "cas" (arena_key round) (winner_value round i)
            (some (base_value round)))
          (20 * second) false none
    contend nodes round n (without_at pending at_) (set results i res)

  abbrev pub counted : ℕ → Tally → ℕ × ℕ → Tally
  counted round t (wins, unknowns) = record {
    ok_all = if round_ok wins unknowns then t.ok_all else false;
    detail =
        t.detail
        ++ ("round "
            ++ (decimal round
                ++ (": "
                    ++ (decimal wins ++ (" winners, " ++ (decimal unknowns ++ " unknown; "))))));
  }

  -- the goroutines of a round, and how their results count
  unfoldable pub duel : List Node → ℕ → Tally → Run W Tally
  unfolding contend tally round_ok decimal range replicate
  duel nodes round t = do
    results ←
        contend nodes round contenders (range 0 contenders)
          (replicate contenders (request (pos 0) "" "" "" none))
    pure (counted round t (tally results))

  -- one round
  unfoldable pub contention_round : List Node → ℕ → Tally → Run W Tally
  unfolding duel fail_with decimal
  contention_round nodes round t = do
    (_, w) ←
        invoke_op e (new_client (pos 100) nodes)
          (request (pos 100) "put" (arena_key round) (base_value round) none) (20 * second) false
          none
    if not (w.outcome == outcome_ok)
        then pure (fail_with t ("round " ++ (decimal round ++ ": setup put failed; ")))
        else duel nodes round t

  -- the rounds that are left, and the number of this one
  unfoldable pub contention_loop : List Node → ℕ → ℕ → Tally → Run W Tally
  unfolding contention_round
  contention_loop nodes zero round t = pure t
  contention_loop nodes (suc n) round t = do
    t' ← contention_round nodes round t
    contention_loop nodes n (round + 1) t'

  unfoldable pub phase_cas_contention : Run W (Unit {0})
  unfolding contention_loop check
  phase_cas_contention = do
    o ← asks (λ r. r.options)
    t ← contention_loop o.nodes 3 0 (record { ok_all = true; detail = "" })
    check "cas-single-winner" t.ok_all t.detail
