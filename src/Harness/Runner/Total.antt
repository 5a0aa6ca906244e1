-- ===== src/Harness/Runner/Total.antt =====
-- What comes to an end: an action from a time on, in a world whose clock does not go back.
use quorum_kv.Prelude.{
  String, ◌≡◌, refl, Bool, true, false, Option, none, some, List, arith, if◌then◌else◌, ℕ, suc, ◌+◌,
  ◌<◌, ◌≤◌,
}
use quorum_kv.History.{Op}
use quorum_kv.Harness.Nodes.{Node}
use quorum_kv.Harness.Invoke.{Client, is_some}
use quorum_kv.Harness.Invoke.Ends.{reaches}
use quorum_kv.Harness.Runner.{
  Env, Options, Runner, State, Run, pure, or_stuck, outside, asks, continue, ◌>>=◌,
}

-- What a run relies on: the clock does not go back and a sleep takes its time, a drawn number is below
-- its bound, and each call of Invoke comes to a round that is a success, of unknown outcome, or late.
pub record Lawful {W : Type 0} (e : Env W) : Type 0 where
  pub sleep_later : (d : ℕ) (w : W) → e.clock w + d ≤ e.clock (e.sleep d w)
  pub idle_later : (d : ℕ) (w : W) → e.clock w ≤ e.clock (e.idle d w)
  pub intn_later : (n : ℕ) (w : W) → e.clock w ≤ e.clock (e.intn n w).1
  pub intn_below : (n : ℕ) (w : W) → (e.intn (suc n) w).0 < suc n
  pub float64_later : (w : W) → e.clock w ≤ e.clock (e.float64 w).1
  pub attempts_later :
      (c : Client) (op : Op) (d : ℕ) (direct : Bool) (pin : Option Node) (w : W)
      → e.clock w ≤ e.clock (e.attempts c op d direct pin w).1
  pub attempts_end :
      (c : Client) (op : Op) (d : ℕ) (direct : Bool) (pin : Option Node) (w : W)
      → reaches (e.attempts c op d direct pin w).0.1 ≡ true
  pub busy_later : (w : W) → e.clock w ≤ e.clock (e.busy w).1
  pub pick_later : (n : ℕ) (w : W) → e.clock w ≤ e.clock (e.pick n w).1
  pub pick_below : (n : ℕ) (w : W) → (e.pick (suc n) w).0 < suc n
  pub exec_later : (argv : List String) (w : W) → e.clock w ≤ e.clock (e.exec argv w).1
  pub http_get_later : (url : String) (w : W) → e.clock w ≤ e.clock (e.http_get url w).1
  pub read_file_later : (path : String) (w : W) → e.clock w ≤ e.clock (e.read_file path w).1
  pub write_file_later : (path b : String) (w : W) → e.clock w ≤ e.clock (e.write_file path b w).1
  pub mkdir_all_later : (path : String) (w : W) → e.clock w ≤ e.clock (e.mkdir_all path w).1
  pub visualize_later : (path : String) (w : W) → e.clock w ≤ e.clock (e.visualize path w).1

-- The run has come to an end.
abbrev pub Ends : {W A : Type 0} → (A → State W → Type 0) → Option (A × State W) → Type 0
Ends Q none = ⊥
Ends Q (some (a, s)) = Q a s

module _ {W : Type 0} (e : Env W) (o : Options) where
  -- the options are those of the run, and it is not before this time
  abbrev pub Since : ℕ → State W → Type 0
  Since c s = (s.runner.options ≡ o) × (c ≤ e.clock s.world)

  -- From this time on, the action ends, with a value of which `V` holds, and not before the time `d`.
  pub record Total {A : Type 0} (c d : ℕ) (V : A → Type 0) (m : Run W A) : Type 0 where
    pub at : (s : State W) → Since c s → Ends (λ a t. V a × Since d t) (m s)

module _ {W : Type 0} {e : Env W} {o : Options} {A : Type 0} {c : ℕ} where
  pub Total-pure : {V : A → Type 0} (a : A) → V a → Total e o c c V (pure a)
  unfolding pure
  Total-pure a v = record { at = λ s h. (v, h) }

  pub Total-outside :
      {V : A → Type 0} (f : W → A × W)
      → ((w : W) → V (f w).0)
      → ((w : W) → e.clock w ≤ e.clock (f w).1)
      → Total e o c c V (outside f)
  unfolding outside
  Total-outside f v later = record {
    at = λ s (same, h). (v s.world, (same, omega (arith, h, later s.world)));
  }

  pub Total-asks : (f : Runner → A) → Total e o c c (λ a. Unit) (asks f)
  unfolding asks
  Total-asks f = record { at = λ s h. (tt, h) }

  pub Total-or_stuck :
      (x : Option A) → is_some x ≡ true → Total e o c c (λ a. x ≡ some a) (or_stuck x)
  Total-or_stuck none h = absurd cc
  Total-or_stuck (some a) h = record { at = λ s p. (refl, p) }

  pub Total-either :
      {d : ℕ} {V : A → Type 0} (b : Bool) {m n : Run W A}
      → Total e o c d V m
      → Total e o c d V n
      → Total e o c d V (if b then m else n)
  Total-either true hm hn = hm
  Total-either false hm hn = hn

  pub Total-if :
      {d : ℕ} {V : A → Type 0} (b : Bool) {m n : Run W A}
      → (b ≡ true → Total e o c d V m)
      → (b ≡ false → Total e o c d V n)
      → Total e o c d V (if b then m else n)
  Total-if true hm hn = hm refl
  Total-if false hm hn = hn refl

  pub Total-weaken :
      {b d d' : ℕ} {V : A → Type 0} {m : Run W A}
      → b ≤ c
      → d' ≤ d
      → Total e o b d V m
      → Total e o c d' V m
  Total-weaken {d} {d'} {V} {m} lo hi h = record {
    at = λ s (same, p). weaken (m s) (h.at s (same, omega (arith, lo, p)));
  }
    where
      weaken :
          (x : Option (A × State W))
          → Ends (λ a t. V a × Since e o d t) x
          → Ends (λ a t. V a × Since e o d' t) x
      weaken none x = x
      weaken (some (a, t)) (v, (same, p)) = (v, (same, omega (arith, hi, p)))

module _ {W : Type 0} {e : Env W} {o : Options} {A B : Type 0} {V : A → Type 0}
    {U : B → Type 0} where
  continued :
      {d f : ℕ} (x : Option (A × State W)) (k : A → Run W B)
      → Ends (λ a t. V a × Since e o d t) x
      → ((a : A) → V a → Total e o d f U (k a))
      → Ends (λ b t. U b × Since e o f t) (continue x k)
  continued none k h later = absurd h
  continued (some (a, t)) k (v, p) later = (later a v).at t p

  pub Total-bind :
      {c d f : ℕ} {m : Run W A} {k : A → Run W B}
      → Total e o c d V m
      → ((a : A) → V a → Total e o d f U (k a))
      → Total e o c f U (m >>= k)
  unfolding ◌>>=◌
  Total-bind {m} {k} h later = record { at = λ s p. continued (m s) k (h.at s p) later }
