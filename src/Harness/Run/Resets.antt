-- ===== src/Harness/Run/Resets.antt =====
-- The records that phaseReset leaves, and the check that tells of them.
use quorum_kv.Prelude.{
  String, ◌≡◌, Bool, true, false, List, [], ◌∷◌, ◌==◌, ◌++◌, All, All-append, arith, eq_iff,
}
use quorum_kv.History.{Op, outcome_ok}
use quorum_kv.Harness.Runner.{CheckResult}

abbrev pub reset_check : String
reset_check = "reset-initial-state"

-- The records begin with a delete of each key, in the order of the keys, each acknowledged if `acked`.
abbrev pub Deletes : Bool → List String → List Op → Type 0
Deletes acked [] ops = Unit
Deletes acked (k ∷ ks) [] = ⊥
Deletes acked (k ∷ ks) (op ∷ ops) =
    (op.op ≡ "delete")
    × ((op.key ≡ k) × ((acked ≡ true → op.outcome ≡ outcome_ok) × Deletes acked ks ops))

-- The check of the reset tells the truth of the records; nothing is said of another check.
abbrev pub ResetBy : List String → List Op → CheckResult → Type 0
ResetBy keys ops c = c.name ≡ reset_check → Deletes c.pass keys ops

Deletes-append :
    (acked : Bool) (ks : List String) (ops more : List Op)
    → Deletes acked ks ops
    → Deletes acked ks (ops ++ more)
Deletes-append acked [] ops more d = tt
Deletes-append acked (k ∷ ks) [] more d = absurd d
Deletes-append acked (k ∷ ks) (op ∷ ops) more (o, (e, (h, d))) =
    (o, (e, (h, Deletes-append acked ks ops more d)))

pub ResetBy-append :
    (keys : List String) (ops more : List Op) (cs : List CheckResult)
    → All (ResetBy keys ops) cs
    → All (ResetBy keys (ops ++ more)) cs
ResetBy-append keys ops more [] h = tt
ResetBy-append keys ops more (c ∷ cs) (h, hs) =
    (λ e. Deletes-append c.pass keys ops more (h e), ResetBy-append keys ops more cs hs)

pub ResetBy-other :
    (keys : List String) (ops : List Op) (cs : List CheckResult) (c : CheckResult)
    → (c.name == reset_check) ≡ false
    → All (ResetBy keys ops) cs
    → All (ResetBy keys ops) (cs ++ c ∷ [])
ResetBy-other keys ops cs c n h =
    All-append (ResetBy keys ops) cs (c ∷ []) h
      (λ e. absurd (ground (arith, n, e, eq_iff c.name reset_check)), tt)
