-- ===== src/System/Shuffles.antt =====
-- The records of the log, of the calls adrift and of the failures, shuffled by the steps.
use quorum_kv.Prelude.{◌≡◌, List, [], ◌∷◌, ◌++◌}
use mathlib.Core.List.{Perm, append_assoc, perm_append_singleton, perm_middle}
use mathlib.Core.List.Perm
use mathlib.Core.Path.{subst⁻¹}

module _ {ℓ} {A : Type ℓ} where
  -- One more record.
  pub Perm-recorded :
      {d : A} {xs ys h h' : List A} → Perm ys (d ∷ xs) → Perm xs h → h' ≡ h ++ d ∷ [] → Perm ys h'
  Perm-recorded {d} {xs} {ys} {h} {h'} p q e =
      subst⁻¹ (Perm ys) e
        (Perm.trans p (Perm.trans (Perm.cons d q) (Perm.symm (perm_append_singleton d h))))

  -- A record that the log takes over.
  pub Perm-moved :
      {d : A} {r' ds ds' : List A} (r fs : List A)
      → r' ≡ r ++ d ∷ []
      → Perm ds (d ∷ ds')
      → Perm (r' ++ (ds' ++ fs)) (r ++ (ds ++ fs))
  Perm-moved {d} {r'} {ds} {ds'} r fs e p =
      subst⁻¹ (λ x. Perm (x ++ (ds' ++ fs)) (r ++ (ds ++ fs))) e
        (subst⁻¹ (λ x. Perm x (r ++ (ds ++ fs))) (append_assoc r (d ∷ []) (ds' ++ fs))
          (Perm.append_left r (Perm.append_right fs (Perm.symm p))))

  pub Perm-first :
      {d : A} {r r' : List A} (ds fs : List A)
      → Perm r' (d ∷ r)
      → Perm (r' ++ (ds ++ fs)) (d ∷ (r ++ (ds ++ fs)))
  Perm-first ds fs p = Perm.append_right (ds ++ fs) p

  pub Perm-second :
      {d : A} (r ds fs : List A) → Perm (r ++ ((d ∷ ds) ++ fs)) (d ∷ (r ++ (ds ++ fs)))
  Perm-second r ds fs = perm_middle r (ds ++ fs)

  pub Perm-third : {d : A} (r ds fs : List A) → Perm (r ++ (ds ++ (d ∷ fs))) (d ∷ (r ++ (ds ++ fs)))
  Perm-third r ds fs =
      Perm.trans (Perm.append_left r (perm_middle ds fs)) (perm_middle r (ds ++ fs))
