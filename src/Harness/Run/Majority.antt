-- ===== src/Harness/Run/Majority.antt =====
-- Nodes of which one is left besides any other.
use quorum_kv.Prelude.{
  ◌≡◌, true, false, not, List, ◌∷◌, ◌==◌, eq_iff, arith, if◌then◌else◌, inl, inr, Bool-cases,
  length, ◌<◌,
}
use quorum_kv.Harness.Nodes.{Node}
use quorum_kv.Harness.Phases.Minority.{majority}
use quorum_kv.Harness.Run.Patient.{HasMajority}

majority-other :
    (n : Node) (ns : List Node) (l : Node)
    → (n.id == l.id) ≡ false
    → 0 < length (majority (n ∷ ns) l)
unfolding majority
majority-other n ns l h = rw h (omega arith)

majority-cons :
    (n : Node) (ns : List Node) (l : Node)
    → 0 < length (majority ns l)
    → 0 < length (majority (n ∷ ns) l)
unfolding majority
majority-cons n ns l h =
    elim (n.id == l.id) as (λ b. 0 < length (if not b then n ∷ majority ns l else majority ns l)) [
      | true ↦ h
      | false ↦ omega arith
    ]

-- Any two different nodes leave one besides the leader.
pub two-HasMajority :
    (a b : Node) (ns : List Node) → (a.id == b.id) ≡ false → HasMajority (a ∷ b ∷ ns)
two-HasMajority a b ns h l = elim (Bool-cases (a.id == l.id)) [
  | inl p ↦ majority-cons a (b ∷ ns) l (
      majority-other b ns l
        (ground (arith, h, p, eq_iff a.id l.id, eq_iff b.id l.id, eq_iff a.id b.id)))
  | inr p ↦ majority-other a (b ∷ ns) l p
]
