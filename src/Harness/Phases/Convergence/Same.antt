-- ===== src/Harness/Phases/Convergence/Same.antt =====
-- internal/harness/run.go: what it means that the states of the nodes are found identical.
use quorum_kv.Prelude.{
  String, ◌≡◌, refl, true, Option, none, some, [], ◌∷◌, ◌==◌, eq_iff, arith, length, inl, inr,
  Bool-cases, ap, sym, ◌∙◌, suc,
}
use quorum_kv.GoMap.{GoMap, nil_map, made, Entries, IsUnique, entries, lookup, without}
use quorum_kv.GoMap.Laws.{lookup-without, without-IsUnique}
use quorum_kv.Harness.Phases.Convergence.{NodeState, same_value, all_found, deep_equal, identical}

module _ {ℓ} {V : Type ℓ} where
  length-without_absent :
      (k : String) (l : Entries V) → lookup k l ≡ none → length (without k l) ≡ length l
  unfolding lookup without
  length-without_absent k [] h = refl
  length-without_absent k ((j, v) ∷ l) h = ground (arith, length-without_absent k l)

  length-without :
      (k : String) (v : V) (l : Entries V)
      → IsUnique l
      → lookup k l ≡ some v
      → length l ≡ suc (length (without k l))
  unfolding lookup without
  length-without k v [] u h = absurd cc
  length-without k v ((j, w) ∷ l) u h = elim (Bool-cases (j == k)) [
    | inl p ↦
        let q : j ≡ k = ground (arith, eq_iff j k) in
        rw p
          (ap (λ n. suc n) (sym (length-without_absent k l (ap (λ x. lookup x l) (sym q) ∙ u.0))))
    | inr p ↦ rw p (ap (λ n. suc n) (length-without k v l u.1 (ground (arith, h, p))))
  ]

found_value : (x : Option String) (v : String) → same_value x v ≡ true → x ≡ some v
found_value none v h = absurd cc
found_value (some w) v h = ground (arith, eq_iff w v)

all_found-without :
    (k : String) (l m : Entries String)
    → lookup k l ≡ none
    → all_found l m ≡ true
    → all_found l (without k m) ≡ true
unfolding lookup all_found
all_found-without k [] m a h = refl
all_found-without k ((j, v) ∷ l) m a h =
    ground (arith, lookup-without k j m, eq_iff j k, eq_iff k j, all_found-without k l m)

-- Two maps of the same size, one of which has all the entries of the other, have the same entries.
same_entries :
    (l m : Entries String)
    → IsUnique l
    → IsUnique m
    → length l ≡ length m
    → all_found l m ≡ true
    → (j : String) → lookup j l ≡ lookup j m
unfolding lookup all_found
same_entries [] [] u w n a j = refl
same_entries [] (x ∷ m) u w n a j = absurd (omega (arith, n))
same_entries ((k, v) ∷ l) m u w n a j =
    let f : lookup k m ≡ some v = found_value (lookup k m) v (ground arith) in
    let size : length l ≡ length (without k m) =
      (let s = length-without k v m w f in omega (arith, n, s)) in
    let ih : lookup j l ≡ lookup j (without k m) =
      same_entries l (without k m) u.1 (without-IsUnique k m w) size
        (all_found-without k l m u.0 (ground arith)) j in
    elim (Bool-cases (k == j)) [
      | inl p ↦ let q : k ≡ j = ground (arith, eq_iff k j) in rw p (sym f ∙ ap (λ x. lookup x m) q)
      | inr p ↦ rw p (ih ∙ lookup-without k j m ∙ rw p refl)
    ]

deep_equal-lookup :
    (a b : GoMap String)
    → IsUnique (entries a)
    → IsUnique (entries b)
    → deep_equal a b ≡ true
    → (k : String) → lookup k (entries a) ≡ lookup k (entries b)
unfolding deep_equal
deep_equal-lookup nil_map nil_map u w h k = refl
deep_equal-lookup nil_map (made m) u w h k = absurd cc
deep_equal-lookup (made l) nil_map u w h k = absurd cc
deep_equal-lookup (made l) (made m) u w h k = same_entries l m u w (ground arith) (ground arith) k

-- One state and another: the same registers, and the same applied index.
pub record SameState (a b : NodeState) : Type 0 where
  pub registers : (k : String) → lookup k (entries a.contents) ≡ lookup k (entries b.contents)
  pub last_applied : a.last_applied ≡ b.last_applied

pub identical-SameState :
    (a b c : NodeState)
    → IsUnique (entries a.contents)
    → IsUnique (entries b.contents)
    → IsUnique (entries c.contents)
    → identical a b c ≡ true
    → SameState a b × SameState b c
unfolding identical
identical-SameState a b c u v w h = (
  record {
    registers = deep_equal-lookup a.contents b.contents u v (ground arith);
    last_applied = ground (arith, eq_iff a.last_applied b.last_applied);
  },
  record {
    registers = deep_equal-lookup b.contents c.contents v w (ground arith);
    last_applied = ground (arith, eq_iff b.last_applied c.last_applied);
  },
)
