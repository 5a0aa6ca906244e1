-- ===== src/Harness/Runner/Rules.antt =====
-- What holds before and after an action of a run, one rule for each way to build an action.
use quorum_kv.Prelude.{◌≡◌, refl, Bool, true, false, Option, none, some, if◌then◌else◌}
use quorum_kv.Harness.Runner.{
  continue, Runner, State, Run, pure, stuck, or_stuck, outside, asks, ◌>>=◌,
}

-- What holds of a result: nothing, if the run does not come to an end.
abbrev pub Holds : {W A : Type 0} → (A → State W → Type 0) → Option (A × State W) → Type 0
Holds Q none = Unit
Holds Q (some (a, s)) = Q a s

-- From a state with `P`, if the action ends, its value has `V` and its state has `Q`.
pub record Triple {W A : Type 0} (P : State W → Type 0) (V : A → Type 0) (Q : State W → Type 0)
    (m : Run W A) : Type 0 where
  pub at : (s : State W) → P s → Holds (λ a t. V a × Q t) (m s)

abbrev pub Any : {A : Type 0} → A → Type 0
Any a = Unit

module _ {W A : Type 0} {R : A → State W → Type 0} where
  pub Holds-weaken :
      {S : A → State W → Type 0} (o : Option (A × State W))
      → ((a : A) (t : State W) → R a t → S a t)
      → Holds R o
      → Holds S o
  Holds-weaken none w h = tt
  Holds-weaken (some (a, t)) w h = w a t h

  pub Holds-continue :
      {B : Type 0} (S : B → State W → Type 0) (o : Option (A × State W)) (f : A → Run W B)
      → Holds R o
      → ((a : A) (t : State W) → R a t → Holds S (f a t))
      → Holds S (continue o f)
  Holds-continue S none f h k = tt
  Holds-continue S (some (a, t)) f h k = k a t h

module _ {W A : Type 0} where
  both :
      (Q Q' : State W → Type 0) (V : A → Type 0) (o : Option (A × State W))
      → Holds (λ a t. V a × Q t) o
      → Holds (λ a t. V a × Q' t) o
      → Holds (λ a t. V a × (Q t × Q' t)) o
  both Q Q' V none h k = tt
  both Q Q' V (some (a, t)) (v, q) (v', q') = (v, (q, q'))

  pub Triple-both :
      {P Q P' Q' : State W → Type 0} {V : A → Type 0} {m : Run W A}
      → Triple P V Q m
      → Triple P' V Q' m
      → Triple (λ s. P s × P' s) V (λ s. Q s × Q' s) m
  Triple-both {Q} {Q'} {V} {m} h k = record {
    at = λ s (p, p'). both Q Q' V (m s) (h.at s p) (k.at s p');
  }

module _ {W A : Type 0} {P : State W → Type 0} where
  pub Triple-pure : {V : A → Type 0} (a : A) → V a → Triple P V P (pure a)
  unfolding pure
  Triple-pure a v = record { at = λ s p. (v, p) }

  -- the rest of the block may use that there was a value
  pub Triple-or_stuck : (o : Option A) → Triple P (λ a. o ≡ some a) P (or_stuck o)
  Triple-or_stuck none = record { at = λ s p. tt }
  Triple-or_stuck (some a) = record { at = λ s p. (refl, p) }

module _ {W A : Type 0} {P Q : State W → Type 0} where
  pub Triple-stuck : {V : A → Type 0} → Triple P V Q stuck
  unfolding stuck
  Triple-stuck = record { at = λ s p. tt }

  pub Triple-if :
      {V : A → Type 0} (b : Bool) {m n : Run W A}
      → Triple P V Q m
      → Triple P V Q n
      → Triple P V Q (if b then m else n)
  Triple-if true hm hn = hm
  Triple-if false hm hn = hn

  -- what holds of every outcome may be weakened, and the start strengthened
  pub Triple-weaken :
      {R : State W → Type 0} {V : A → Type 0} {m : Run W A}
      → ((s : State W) → Q s → R s)
      → Triple P V Q m
      → Triple P V R m
  Triple-weaken {m} w h = record { at = λ s p. weaken _ (m s) w (h.at s p) }
    where
      weaken :
          {S T : State W → Type 0} (U : A → Type 0) (o : Option (A × State W))
          → ((s : State W) → S s → T s)
          → Holds (λ a t. U a × S t) o
          → Holds (λ a t. U a × T t) o
      weaken U none w h = tt
      weaken U (some (a, t)) w (u, q) = (u, w t q)

  pub Triple-strengthen :
      {R : State W → Type 0} {V : A → Type 0} {m : Run W A}
      → ((s : State W) → R s → P s)
      → Triple P V Q m
      → Triple R V Q m
  Triple-strengthen w h = record { at = λ s r. h.at s (w s r) }

module _ {W A B : Type 0} {Q R : State W → Type 0} {V : A → Type 0} {U : B → Type 0} where
  continued :
      (o : Option (A × State W)) (f : A → Run W B)
      → Holds (λ a t. V a × Q t) o
      → ((a : A) → V a → Triple Q U R (f a))
      → Holds (λ b t. U b × R t) (continue o f)
  continued none f h k = tt
  continued (some (a, t)) f (v, q) k = (k a v).at t q

  pub Triple-bind :
      {P : State W → Type 0} {m : Run W A} {f : A → Run W B}
      → Triple P V Q m
      → ((a : A) → V a → Triple Q U R (f a))
      → Triple P U R (m >>= f)
  unfolding ◌>>=◌
  Triple-bind {m} {f} hm hf = record { at = λ s p. continued (m s) f (hm.at s p) hf }

module _ {W A B : Type 0} {P Q : State W → Type 0} {U : B → Type 0} where
  -- a look at the runner, behind which it is known what was seen
  pub Triple-look :
      (f : Runner → A) {k : A → Run W B}
      → ((a : A) → Triple (λ s. P s × (f s.runner ≡ a)) U Q (k a))
      → Triple P U Q (asks f >>= k)
  unfolding ◌>>=◌ asks
  Triple-look f h = record { at = λ s p. (h (f s.runner)).at s (p, refl) }

module _ {W A : Type 0} {P : State W → Type 0} where
  -- a use of the world, where what holds is a matter of the runner
  pub Triple-outside :
      (f : W → A × W)
      → ((s : State W) (w : W) → P s → P (record s { world = w }))
      → Triple P Any P (outside f)
  unfolding outside
  Triple-outside f h = record { at = λ s p. (tt, h s _ p) }

  pub Triple-asks : (f : Runner → A) → Triple P Any P (asks f)
  unfolding asks
  Triple-asks f = record { at = λ s p. (tt, p) }
