-- ===== src/Harness/Run/Work.antt =====
-- The operations of the workload are known ones, on keys that were reset.
use quorum_kv.Prelude.{
  ◌∙◌, ap, String, ◌≡◌, refl, Bool, true, false, some, arith, if◌then◌else◌, ℕ, ltb,
}
use quorum_kv.History.{Op}
use quorum_kv.Harness.Invoke.{Client}
use quorum_kv.Harness.Runner.{request}
use quorum_kv.Harness.Phases.Keys.{reset_keys}
use quorum_kv.Harness.Run.Good.{has_key}
use quorum_kv.Harness.Invoke.{Client}
use quorum_kv.Checker.Sound.{IsKnown, known}
use quorum_kv.Kv.Spec.{kind_of}
use quorum_kv.Harness.Workload.{get_elem?, draws, random_op}
use quorum_kv.Harness.Phases.Keys.{workload_keys}
use quorum_kv.Harness.Run.Members.{has_key-get_elem?, reset_keys-workload}

-- the operation that three tests choose
abbrev chosen : Bool → Bool → Bool → String
chosen a b d = if a then "put" else if b then "get" else if d then "cas" else "delete"

chosen-known : (a b d : Bool) → known (kind_of (chosen a b d)) ≡ true
chosen-known true b d = refl
chosen-known false true d = refl
chosen-known false false true = refl
chosen-known false false false = refl

random_op-op :
    (c : Client) (key : String) (noise r absent : ℕ)
    → (random_op c key noise r absent).1.op ≡ chosen (ltb r draws.0) (ltb r draws.1) (ltb r draws.2)
unfolding random_op request
random_op-op c key noise r absent = ground arith

-- A random operation is a known one, on the key that was chosen.
random_op-IsKnown :
    (c : Client) (key : String) (noise r absent : ℕ) → IsKnown (random_op c key noise r absent).1
random_op-IsKnown c key noise r absent =
    ap (λ k. known (kind_of k)) (random_op-op c key noise r absent)
    ∙ chosen-known (ltb r draws.0) (ltb r draws.1) (ltb r draws.2)

random_op-key :
    (c : Client) (key : String) (noise r absent : ℕ) → (random_op c key noise r absent).1.key ≡ key
unfolding random_op request
random_op-key c key noise r absent = ground arith

-- an operation that the chaos phase may send
abbrev pub IsWork : ℕ → Op → Type 0
IsWork n op = IsKnown op × (has_key (reset_keys n) op.key ≡ true)

pub random_op-IsWork :
    (n : ℕ) (c : Client) (i : ℕ) (key : String) (noise r absent : ℕ)
    → get_elem? (workload_keys n) i ≡ some key
    → IsWork n (random_op c key noise r absent).1
random_op-IsWork n c i key noise r absent h = (
  random_op-IsKnown c key noise r absent,
  ap (has_key (reset_keys n)) (random_op-key c key noise r absent)
      ∙ reset_keys-workload n key (has_key-get_elem? (workload_keys n) i key h),
)
