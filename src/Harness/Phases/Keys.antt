-- ===== src/Harness/Phases/Keys.antt =====
-- internal/harness/run.go: the keys that the phases use.
use quorum_kv.Prelude.{String, List, [], ◌∷◌, map, ℕ, zero, suc, ◌+◌}
use Prim.Native.String.{◌++◌}
use mathlib.Core.List.{◌++◌ as ◌++ₗ◌}
use quorum_kv.Fmt.{decimal}

-- the numbers from `i` on, so many
unfoldable pub range : ℕ → ℕ → List ℕ
range i zero = []
range i (suc n) = i ∷ range (i + 1) n

abbrev pub smoke_key : String
smoke_key = "smoke"

abbrev pub live_key : String
live_key = "majority-live"

abbrev pub probe_key : String
probe_key = "minority-probe"

unfoldable pub workload_key : ℕ → String
unfolding decimal
workload_key i = "k" ++ decimal i

unfoldable pub durable_key : ℕ → String
unfolding decimal
durable_key i = "durable-" ++ decimal i

unfoldable pub arena_key : ℕ → String
unfolding decimal
arena_key i = "cas-arena-" ++ decimal i

-- the keys of the chaos phase
unfoldable pub workload_keys : ℕ → List String
unfolding range workload_key
workload_keys n = map workload_key (range 0 n)

unfoldable pub paired_keys : List ℕ → List String
unfolding durable_key arena_key
paired_keys [] = []
paired_keys (i ∷ is) = durable_key i ∷ arena_key i ∷ paired_keys is

-- the keys that phaseReset deletes
unfoldable pub reset_keys : ℕ → List String
unfolding workload_keys paired_keys range
reset_keys n = smoke_key ∷ live_key ∷ probe_key ∷ (workload_keys n ++ₗ paired_keys (range 0 3))
