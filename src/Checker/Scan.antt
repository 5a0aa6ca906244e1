-- ===== src/Checker/Scan.antt =====
-- A checker that answers Ok for a history that is recorded in an order that the model accepts, and
-- Unknown for any other: it shows that what is assumed of Porcupine can hold.
use quorum_kv.Prelude.{◌≡◌, Bool, true, ◌&&◌, not, List, [], ◌∷◌, arith, if◌then◌else◌, All, ℕ}
use mathlib.Core.List.Perm
use quorum_kv.Prelude.Int.{ℤ, ◌≤ℤ◌, ltb_ℤ}
use quorum_kv.Checker.Model.{Operation, KvState, step, init, partition}
use quorum_kv.Checker.Linearizable.{Accepts, InTime, Linearization}
use quorum_kv.Checker.Check.{Porcupine, CheckResult}

later_all : ℤ → List Operation → Bool
later_all t [] = true
later_all t (p ∷ ps) = not (ltb_ℤ p.return t) && later_all t ps

in_order : KvState → List Operation → Bool
unfolding later_all
in_order st [] = true
in_order st (o ∷ os) =
    (step st o.input o.output).0
    && (later_all o.call os && in_order (step st o.input o.output).1 os)

later_all_lem : (t : ℤ) (ps : List Operation) → later_all t ps ≡ true → All (λ p. t ≤ℤ p.return) ps
unfolding later_all
later_all_lem t [] h = tt
later_all_lem t (p ∷ ps) h = (ground arith, later_all_lem t ps (ground arith))

in_order_lem :
    (st : KvState) (os : List Operation) → in_order st os ≡ true → InTime os × Accepts st os
unfolding in_order
in_order_lem st [] h = (tt, tt)
in_order_lem st (o ∷ os) h =
    let rest : InTime os × Accepts (step st o.input o.output).1 os =
      in_order_lem (step st o.input o.output).1 os (ground arith) in
    ((later_all_lem o.call os (ground arith), rest.0), (ground arith, rest.1))

all_in_order : List (List Operation) → Bool
all_in_order [] = true
all_in_order (p ∷ ps) = in_order init p && all_in_order ps

all_in_order_lem : (ps : List (List Operation)) → all_in_order ps ≡ true → All Linearization ps
unfolding all_in_order
all_in_order_lem [] h = tt
all_in_order_lem (p ∷ ps) h =
    let own : InTime p × Accepts init p = in_order_lem init p (ground arith) in
    (
      record { order = p; same = Perm.refl p; in_time = own.0; accepted = own.1 },
      all_in_order_lem ps (ground arith),
    )

unfoldable pub verdict : List Operation → ℕ → CheckResult
unfolding all_in_order in_order step partition
verdict os timeout = if all_in_order (partition os) then CheckResult.ok else CheckResult.unknown

pub verdict-ok :
    (os : List Operation) (timeout : ℕ)
    → verdict os timeout ≡ CheckResult.ok
    → All Linearization (partition os)
unfolding verdict
verdict-ok os timeout h = all_in_order_lem (partition os) (ground arith)

pub verdict-illegal :
    (os : List Operation) (timeout : ℕ)
    → verdict os timeout ≡ CheckResult.illegal
    → ¬ All Linearization (partition os)
unfolding verdict
verdict-illegal os timeout h = absurd (ground arith)

abbrev pub scan : Porcupine
scan = record { check_operations = verdict; ok_sound = verdict-ok; illegal_sound = verdict-illegal }
