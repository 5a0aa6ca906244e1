-- ===== src/Harness/Run/Timed.antt =====
-- The loops on the clock come to an end in a lawful world, in so many rounds.
use quorum_kv.Prelude.{
  ◌≡◌, false, not, Option, none, some, List, [], ◌∷◌, arith, length, ℕ, zero, suc, ◌+◌, ◌*◌, ◌<◌,
  ◌≤◌, ltb,
}
use quorum_kv.History.{Op}
use quorum_kv.Harness.Nodes.{Node}
use quorum_kv.Harness.Invoke.{Client}
use quorum_kv.Harness.Runner.{Env, Options, Run, ms}
use quorum_kv.Harness.Runner.Rules.{Any}
use quorum_kv.Harness.Runner.Total.{
  Lawful, Total, Total-pure, Total-if, Total-either, Total-weaken, Total-bind,
}
use quorum_kv.Prelude.{String, inl, inr, ◌⊎◌}
use quorum_kv.Prelude.Int.{ℤ}
use quorum_kv.Harness.Runner.{second}
use quorum_kv.Harness.Runner.Steady.{Total-check, Total-clock, Total-sleep, Total-get, Total-invoke}
use quorum_kv.Harness.Phases.Durability.{read_back}
use quorum_kv.Harness.Phases.Minority.{write_loop, read_loop}
use quorum_kv.Harness.Phases.Convergence.{
  NodeState, states_of, state_of, kept_state, compared, settle, converge_round, converge_loop,
}

-- what a round of each of these loops takes at least
abbrev pub pause : ℕ
pause = 500 * ms

-- From the time `c` on, so many rounds reach the deadline.
pub record Enough (n deadline c : ℕ) : Type 0 where
  pub some_left : 0 < n
  pub in_time : deadline + pause ≤ c + n * pause

pub Enough-next :
    (n deadline c now later : ℕ)
    → Enough (suc n) deadline c
    → c ≤ now
    → not (ltb now deadline) ≡ false
    → now + pause ≤ later
    → Enough n deadline later
Enough-next n deadline c now later h p q r =
    let early : now < deadline = ground arith in
    record {
      some_left = omega (arith, h.in_time, early, p);
      in_time = omega (arith, h.in_time, early, p, r);
    }

pub Enough-start : (n d now : ℕ) → d + pause ≤ n * pause → Enough n (now + d) now
Enough-start n d now h = record { some_left = omega (arith, h); in_time = omega (arith, h) }

module _ {W : Type 0} {e : Env W} (l : Lawful e) {o : Options} where
  kept_state-Total :
      {c : ℕ} (later : Run W (List NodeState)) (x : Option NodeState)
      → Total e o c c Any later
      → Total e o c c Any (kept_state e later x)
  kept_state-Total later none h = Total-pure _ tt
  kept_state-Total later (some s) h = Total-bind h λ rest _. Total-pure _ tt

  states_of-Total : {c : ℕ} (nodes : List Node) → Total e o c c Any (states_of e nodes)
  unfolding states_of
  states_of-Total [] = Total-pure _ tt
  states_of-Total (n ∷ nodes) =
      Total-bind (Total-get l _)
        λ body _. kept_state-Total (states_of e nodes) (state_of e body) (states_of-Total nodes)

  settle-Total :
      {c now : ℕ} (again : String → Run W (Unit {0})) (x : String ⊎ String)
      → c ≤ now
      → ((d : String) → Total e o (now + 2 * second) c Any (again d))
      → Total e o now c Any (settle e again x)
  settle-Total again (inl d) later h = Total-weaken (omega arith) later (Total-check _ _ _)
  settle-Total again (inr d) later h = Total-bind (Total-sleep l _) λ u _. h d

  pub converge_loop-Total :
      {c : ℕ} (n deadline : ℕ) (nodes : List Node) (d : String)
      → Enough n deadline c
      → Total e o c c Any (converge_loop e n deadline nodes d)
  unfolding converge_loop converge_round
  converge_loop-Total zero deadline nodes d h = absurd (omega (arith, h.some_left))
  converge_loop-Total (suc n) deadline nodes d h = Total-clock λ now later.
      Total-if _ (λ over. Total-weaken (omega arith) later (Total-check _ _ _))
        λ early. Total-bind (states_of-Total nodes) λ states _.
          settle-Total (converge_loop e n deadline nodes) (compared e states) later λ d'.
            Total-weaken (omega arith) (omega (arith, later)) (
              converge_loop-Total {c = now + 2 * second} n deadline nodes d'
                (Enough-next n deadline _ now (now + 2 * second) h later early (omega arith)))

  pub read_back-Total :
      {c : ℕ} (n deadline : ℕ) (client : Client) (id : ℤ) (key : String) (got : Op)
      → 0 < length client.nodes
      → Enough n deadline c
      → Total e o c c Any (read_back e n deadline client id key got)
  unfolding read_back
  read_back-Total zero deadline client id key got some_ h = absurd (omega (arith, h.some_left))
  read_back-Total (suc n) deadline client id key got some_ h = Total-clock λ now later.
      Total-if _ (λ over. Total-weaken (omega arith) later (Total-pure {V = Any} _ tt))
        λ early. Total-bind (Total-invoke l client _ (5 * second) false none some_) λ a same.
          Total-either _ (Total-weaken (omega arith) later (Total-pure {V = Any} _ tt)) (
            Total-bind (Total-sleep l _) λ u _. Total-weaken (omega arith) (omega (arith, later)) (
              read_back-Total {c = now + pause} n deadline a.0 id key a.1 (rw same some_)
                (Enough-next n deadline _ now (now + pause) h later early (omega arith))))

  pub write_loop-Total :
      {c : ℕ} (n deadline : ℕ) (client : Client) (i : ℕ)
      → 0 < length client.nodes
      → Enough n deadline c
      → Total e o c c (λ a. 0 < length a.0.nodes) (write_loop e n deadline client i)
  unfolding write_loop
  write_loop-Total zero deadline client i some_ h = absurd (omega (arith, h.some_left))
  write_loop-Total (suc n) deadline client i some_ h = Total-clock λ now later.
      Total-if _ (λ over. Total-weaken (omega arith) later (Total-pure _ some_))
        λ early. Total-bind (Total-invoke l client _ (6 * second) false none some_) λ a same.
          Total-either _ (Total-weaken (omega arith) later (Total-pure _ (rw same some_))) (
            Total-bind (Total-sleep l _) λ u _. Total-weaken (omega arith) (omega (arith, later)) (
              write_loop-Total {c = now + pause} n deadline a.0 (i + 1) (rw same some_)
                (Enough-next n deadline _ now (now + pause) h later early (omega arith))))

  pub read_loop-Total :
      {c : ℕ} (n deadline : ℕ) (client : Client)
      → 0 < length client.nodes
      → Enough n deadline c
      → Total e o c c Any (read_loop e n deadline client)
  unfolding read_loop
  read_loop-Total zero deadline client some_ h = absurd (omega (arith, h.some_left))
  read_loop-Total (suc n) deadline client some_ h = Total-clock λ now later.
      Total-if _ (λ over. Total-weaken (omega arith) later (Total-pure {V = Any} _ tt))
        λ early. Total-bind (Total-invoke l client _ (6 * second) false none some_) λ a same.
          Total-either _ (Total-weaken (omega arith) later (Total-pure {V = Any} _ tt)) (
            Total-bind (Total-sleep l _) λ u _. Total-weaken (omega arith) (omega (arith, later)) (
              read_loop-Total {c = now + pause} n deadline a.0 (rw same some_)
                (Enough-next n deadline _ now (now + pause) h later early (omega arith))))
