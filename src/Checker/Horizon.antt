-- ===== src/Checker/Horizon.antt =====
-- The end that ToOperations gives to an operation of unknown outcome lies behind the whole history.
use quorum_kv.Prelude.{◌≡◌, refl, List, [], ◌∷◌, arith, All, zero, suc}
use quorum_kv.Prelude.Int.{ℤ, pos, negsuc, ◌≤ℤ◌, ◌<ℤ◌, succ_int64, max_int64}
use quorum_kv.History.{Op}
use quorum_kv.Checker.Operations.{max_end, horizon, larger}

larger_lem : (a b : ℤ) → (a ≤ℤ larger a b) × (b ≤ℤ larger a b)
unfolding larger
larger_lem a b = ground arith

larger-lt : (a b c : ℤ) → a <ℤ c → b <ℤ c → larger a b <ℤ c
unfolding larger
larger-lt a b c h k = ground arith

-- `maxEnd` after one round of the loop.
abbrev round : ℤ → Op → ℤ
round m o = larger (larger m o.end_ns) o.start_ns

round_lem :
    (m : ℤ) (o : Op) → (m ≤ℤ round m o) × (o.start_ns ≤ℤ round m o) × (o.end_ns ≤ℤ round m o)
round_lem m o = omega (arith, larger_lem m o.end_ns, larger_lem (larger m o.end_ns) o.start_ns)

max_end-cons : (m : ℤ) (o : Op) (os : List Op) → max_end m (o ∷ os) ≡ max_end (round m o) os
unfolding max_end
max_end-cons m o os = refl

max_end-nil : (m : ℤ) → max_end m [] ≡ m
unfolding max_end
max_end-nil m = refl

max_end-ge : (m : ℤ) (os : List Op) → m ≤ℤ max_end m os
max_end-ge m [] = rw max_end-nil (omega arith)
max_end-ge m (o ∷ os) = rw max_end-cons (omega (arith, round_lem m o, max_end-ge (round m o) os))

-- Below the largest int64, so that one can be added.
abbrev pub InRange : Op → Type 0
InRange o = (o.start_ns <ℤ pos max_int64) × (o.end_ns <ℤ pos max_int64)

abbrev Within : ℤ → Op → Type 0
Within t o = (o.start_ns ≤ℤ t) × (o.end_ns ≤ℤ t)

max_end-Within : (m : ℤ) (os : List Op) → All (Within (max_end m os)) os
unfolding max_end
max_end-Within m [] = tt
max_end-Within m (o ∷ os) =
    (omega (arith, round_lem m o, max_end-ge (round m o) os), max_end-Within (round m o) os)

max_end-lt :
    (m : ℤ) (os : List Op) → m <ℤ pos max_int64 → All InRange os → max_end m os <ℤ pos max_int64
max_end-lt m [] h r = rw max_end-nil h
max_end-lt m (o ∷ os) h r = rw max_end-cons (
    max_end-lt (round m o) os
      (larger-lt (larger m o.end_ns) o.start_ns (pos max_int64)
        (larger-lt m o.end_ns (pos max_int64) h r.0.1) r.0.0)
      r.1)

succ_int64-above : (t : ℤ) → t <ℤ pos max_int64 → t <ℤ succ_int64 t
unfolding succ_int64
succ_int64-above (pos n) h = ground arith
succ_int64-above (negsuc zero) h = ground arith
succ_int64-above (negsuc (suc n)) h = ground arith

abbrev pub Before : ℤ → Op → Type 0
Before t o = (o.start_ns <ℤ t) × (o.end_ns <ℤ t)

Within-Before : (m t : ℤ) (os : List Op) → m <ℤ t → All (Within m) os → All (Before t) os
Within-Before m t [] h w = tt
Within-Before m t (o ∷ os) h w = (omega arith, Within-Before m t os h w.1)

-- If every timestamp is below the largest int64, every operation of the history is called, and has
-- its recorded end, before the horizon: the addition does not wrap.
pub horizon-above : (os : List Op) → All InRange os → All (Before (horizon os)) os
unfolding horizon
horizon-above os r =
    Within-Before last (succ_int64 last) os
      (succ_int64-above last (max_end-lt (pos 0) os (omega arith) r)) (max_end-Within (pos 0) os)
  where
    last : ℤ
    last = max_end (pos 0) os
