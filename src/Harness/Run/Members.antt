-- ===== src/Harness/Run/Members.antt =====
-- The keys that the phases use are among those that phaseReset deletes.
use quorum_kv.Prelude.{String, ◌≡◌, refl, true, some, List, [], ◌∷◌, eq_iff, arith, ℕ, zero, suc}
use mathlib.Core.List.{◌++◌}
use quorum_kv.Prelude.{All, ◌<◌}
use quorum_kv.Harness.Workload.{get_elem?}
use quorum_kv.Harness.Phases.Keys.{
  range, smoke_key, live_key, probe_key, workload_keys, durable_key, arena_key, paired_keys,
  reset_keys,
}
use quorum_kv.Harness.Run.Good.{has_key}

has_key-append_right :
    (xs ys : List String) (k : String) → has_key ys k ≡ true → has_key (xs ++ ys) k ≡ true
unfolding has_key
has_key-append_right [] ys k h = h
has_key-append_right (x ∷ xs) ys k h = ground (arith, has_key-append_right xs ys k)

has_key-append_left :
    (xs ys : List String) (k : String) → has_key xs k ≡ true → has_key (xs ++ ys) k ≡ true
unfolding has_key
has_key-append_left [] ys k h = cc
has_key-append_left (x ∷ xs) ys k h = ground (arith, has_key-append_left xs ys k)

pub has_key-get_elem? :
    (xs : List String) (i : ℕ) (k : String) → get_elem? xs i ≡ some k → has_key xs k ≡ true
unfolding has_key get_elem?
has_key-get_elem? [] i k h = cc
has_key-get_elem? (x ∷ xs) zero k h = ground (arith, eq_iff x k)
has_key-get_elem? (x ∷ xs) (suc i) k h = ground (arith, has_key-get_elem? xs i k h)

All-listed :
    (zs ys : List String)
    → ((k : String) → has_key ys k ≡ true → has_key zs k ≡ true)
    → All (λ k. has_key zs k ≡ true) ys
unfolding has_key
All-listed zs [] h = tt
All-listed zs (y ∷ ys) h =
    (h y (ground (arith, eq_iff y y)), All-listed zs ys (λ k m. h k (ground (arith, m))))

pub All-has_key : (xs : List String) → All (λ k. has_key xs k ≡ true) xs
All-has_key xs = All-listed xs xs (λ k m. m)

module _ (n : ℕ) where
  pub reset_keys-smoke : has_key (reset_keys n) smoke_key ≡ true
  unfolding has_key reset_keys
  reset_keys-smoke = refl

  pub reset_keys-live : has_key (reset_keys n) live_key ≡ true
  unfolding has_key reset_keys
  reset_keys-live = refl

  pub reset_keys-probe : has_key (reset_keys n) probe_key ≡ true
  unfolding has_key reset_keys
  reset_keys-probe = refl

  reset_keys-paired :
      (k : String) → has_key (paired_keys (range 0 3)) k ≡ true → has_key (reset_keys n) k ≡ true
  unfolding reset_keys
  reset_keys-paired k h =
      has_key-append_right (smoke_key ∷ live_key ∷ probe_key ∷ workload_keys n)
        (paired_keys (range 0 3)) k h

  pub reset_keys-durable : (i : ℕ) → i < 3 → has_key (reset_keys n) (durable_key i) ≡ true
  unfolding has_key paired_keys range durable_key
  reset_keys-durable zero h = reset_keys-paired (durable_key 0) refl
  reset_keys-durable (suc zero) h = reset_keys-paired (durable_key 1) refl
  reset_keys-durable (suc (suc zero)) h = reset_keys-paired (durable_key 2) refl
  reset_keys-durable (suc (suc (suc i))) h = absurd (omega arith)

  pub reset_keys-arena : (i : ℕ) → i < 3 → has_key (reset_keys n) (arena_key i) ≡ true
  unfolding has_key paired_keys range arena_key
  reset_keys-arena zero h = reset_keys-paired (arena_key 0) refl
  reset_keys-arena (suc zero) h = reset_keys-paired (arena_key 1) refl
  reset_keys-arena (suc (suc zero)) h = reset_keys-paired (arena_key 2) refl
  reset_keys-arena (suc (suc (suc i))) h = absurd (omega arith)

  pub reset_keys-workload :
      (k : String) → has_key (workload_keys n) k ≡ true → has_key (reset_keys n) k ≡ true
  unfolding reset_keys
  reset_keys-workload k h =
      has_key-append_right (smoke_key ∷ live_key ∷ probe_key ∷ [])
        (workload_keys n ++ paired_keys (range 0 3)) k
        (has_key-append_left (workload_keys n) (paired_keys (range 0 3)) k h)
