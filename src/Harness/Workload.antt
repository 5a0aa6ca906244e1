-- ===== src/Harness/Workload.antt =====
-- internal/harness/client.go: the random operations of the workload.
use quorum_kv.Prelude.{
  String, ◌&&◌, Option, none, some, List, [], ◌∷◌, if◌then◌else◌, length, ℕ, zero, suc, ◌+◌, ◌^◌,
  ltb, leb,
}
use quorum_kv.History.{Op}
use quorum_kv.Harness.Invoke.{Client}
use quorum_kv.Harness.Runner.{Env, Run, pure, stuck, or_stuck, outside, ◌>>=◌, request}
use Prim.Native.String.{◌++◌}
use quorum_kv.GoMap.{lookup}
use quorum_kv.Fmt.{decimal, decimal_ℤ, hex6}

-- keys[i]; `none` is the panic out of range
unfoldable pub get_elem? {ℓ} : {A : Type ℓ} → List A → ℕ → Option A
get_elem? [] i = none
get_elem? (x ∷ xs) zero = some x
get_elem? (x ∷ xs) (suc i) = get_elem? xs i

-- `c.lastSeen[key]`: nil if the key is missing, too
abbrev last_seen_of : Option (Option String) → Option String
last_seen_of none = none
last_seen_of (some v) = v

-- The constants 0.35, 0.70, 0.90 and 0.2, as doubles in units of 2^-53; the last one lies half a unit
-- above the number that is written here.
abbrev pub draws : ℕ × ℕ × ℕ × ℕ
draws = (3152519739159347, 6305039478318694, 8106479329266893, 1801439850948198)

-- RandomOp, from the draws of its generator: the operation, and the client with its counter
unfoldable pub random_op : Client → String → ℕ → ℕ → ℕ → Client × Op
unfolding decimal decimal_ℤ hex6 lookup request
random_op c key noise r absent =
    let c' = record c { seq = c.seq + 1 } in
    let val = "c" ++ (decimal_ℤ c.id ++ ("-" ++ (decimal (c.seq + 1) ++ ("-" ++ hex6 noise)))) in
    let seen = last_seen_of (lookup key c.last_seen) in
    if ltb r draws.0
    then (c', request c.id "put" key val none)
    else if ltb r draws.1
    then (c', request c.id "get" key "" none)
    else if ltb r draws.2
    then (c', request c.id "cas" key val (if leb absent draws.3 then none else seen))
    else (c', request c.id "delete" key "" none)

module _ {W : Type 0} (e : Env W) where
  -- rand.Intn, which panics on 0
  unfoldable pub intn : ℕ → Run W ℕ
  intn zero = stuck
  intn (suc n) = outside (e.intn (suc n))

  -- RandomOp; the last draw is one of a cas only
  unfoldable pub next_op : Client → List String → Run W (Client × Op)
  unfolding random_op intn get_elem?
  next_op c keys = do
    i ← intn (length keys)
    key ← or_stuck (get_elem? keys i)
    noise ← outside (e.intn (2 ^ 24))
    r ← outside e.float64
    absent ← if leb draws.1 r && ltb r draws.2 then outside e.float64 else pure 0
    pure (random_op c key noise r absent)
