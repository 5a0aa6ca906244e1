-- ===== src/Harness/Invoke/Available.antt =====
-- Invoke while one node answers: it goes round all the nodes.
use quorum_kv.Prelude.{
  String, ◌≢◌, ◌≡◌, refl, sym, ap, ◌∙◌, true, Option, none, some, List, [], ◌∷◌, arith, eq_iff, inl,
  inr, ◌⊎◌, Bool-cases, length, ℕ, zero, suc, ◌+◌, leb, leb→le, nat_eq, nat_eq_iff, ◌-◌, ◌<◌, ◌≤◌,
  ◌%◌,
}
use mathlib.Core.Path.{subst, subst⁻¹}
use native.Mathlib.Nat.{mod-add-mod, mod-lt, mod-eq_of_lt, add-mod_left}
use quorum_kv.History.{Op, outcome_ok}
use quorum_kv.Harness.Nodes.{Node}
use quorum_kv.Harness.Invoke.{Client, Round, Turn, nth, node_for, invoke_from, invoke}
use quorum_kv.Harness.Invoke.Attempts.{
  IsRetried, is_last, outcome_of, Finishes, finishes, turn-Finishes, turn-again, node_for-some,
  turned, invoke_from-cons,
}

-- The attempts at `n` nodes in turn, from the attempt `k` on, where `respond` is what the world has for
-- an attempt at a node.
unfoldable pub schedule : Client → (ℕ → Option Node → Round) → ℕ → ℕ → ℕ → List Round
unfolding node_for
schedule c respond start k zero = []
schedule c respond start k (suc n) =
    respond k (node_for c none start k) ∷ schedule c respond start (k + 1) n

pub data Acknowledged (op : Op) : Option (Client × Op) → Type 0 where
  acknowledged :
      (c' : Client) (done : Op)
      → done.outcome ≡ outcome_ok
      → done.op ≡ op.op
      → done.key ≡ op.key
      → Acknowledged op (some (c', done))

abbrev pub IsOk : Round → Type 0
IsOk r = r.result.class ≡ "ok"

outcome_of-IsOk : (r : Round) → IsOk r → outcome_of r ≡ outcome_ok
outcome_of-IsOk r h = rw h

is_last-IsOk : (r : Round) → IsOk r → is_last r ≡ true
is_last-IsOk r h = rw h

Acknowledged-turned :
    (c : Client) (op : Op) (node : Node) (r : Round) (rest : Op → Option (Client × Op)) (t : Turn)
    → IsOk r
    → Finishes c op node r t
    → Acknowledged op (turned rest t)
Acknowledged-turned c op node r rest _ ok (finishes c' done e) =
    acknowledged c' done (e.outcome ∙ outcome_of-IsOk r ok) e.operation.0 e.operation.1

Acknowledged-again :
    (op op' : Op) (x : Option (Client × Op))
    → op'.op ≡ op.op
    → op'.key ≡ op.key
    → Acknowledged op' x
    → Acknowledged op x
Acknowledged-again op op' _ p q (acknowledged c done o same_op same_key) =
    acknowledged c done o (same_op ∙ p) (same_key ∙ q)

IsRetried-fail : (r : Round) → IsRetried r → r.result.class ≡ "fail"
IsRetried-fail r k = ground (arith, k, eq_iff r.result.class "fail")

ok_not_fail : ◌≢◌ {A = String} "ok" "fail"
ok_not_fail = ground (arith, eq_iff "ok" "fail")

not-IsRetried : (r : Round) → IsOk r → ¬ IsRetried r
not-IsRetried r h k = ok_not_fail (sym h ∙ IsRetried-fail r k)

-- Each index of a cycle of `n` occurs within `n` attempts.
cycle : (s n j : ℕ) → j < n → (k : ℕ) × (k < n) × ((s + k) % n ≡ j)
cycle s n j h =
    let below : s % n < n = mod-lt s (omega (arith, h)) in
    elim (Bool-cases (leb (s % n) j)) [
      | inl e ↦
          (let l = leb→le (s % n) j e in
            let sum : s % n + (j - s % n) ≡ j = omega (arith, l) in
            (
              j - s % n,
              omega (arith, h),
              sym (mod-add-mod s n (j - s % n)) ∙ ap (λ x. x % n) sum ∙ mod-eq_of_lt h,
            ))
      | inr e ↦
          (let l : j < s % n = ground (arith, e) in
            let sum : s % n + (n + j - s % n) ≡ n + j = omega (arith, below) in
            (
              n + j - s % n,
              omega (arith, l, below),
              sym (mod-add-mod s n (n + j - s % n))
                  ∙ ap (λ x. x % n) sum
                  ∙ add-mod_left n j
                  ∙ mod-eq_of_lt h,
            ))
    ]

module _ (c : Client) (respond : ℕ → Option Node → Round) (start : ℕ) (node : Node)
    (some_node : 0 < length c.nodes) (up : (a : ℕ) → IsOk (respond a (some node)))
    (others : (a : ℕ) (m : Node) → IsOk (respond a (some m)) ⊎ IsRetried (respond a (some m))) where
  invoke_from-Acknowledged :
      (n k i : ℕ) (op : Op)
      → k ≤ i
      → i < k + n
      → node_for c none start i ≡ some node
      → Acknowledged op (invoke_from c op none start k (schedule c respond start k n))
  unfolding schedule
  invoke_from-Acknowledged zero k i op l u at = absurd (omega (arith, l, u))
  invoke_from-Acknowledged (suc n) k i op l u at =
      let (m, here) = node_for-some c none start k some_node in
      let r : Round = respond k (node_for c none start k) in
      let same : r ≡ respond k (some m) = ap (respond k) here in
      rw (invoke_from-cons c op none start k r (schedule c respond start (k + 1) n) m here)
        (elim (others k m) [
          | inl good ↦
              (let ok = subst⁻¹ IsOk same good in
                Acknowledged-turned c op m r _ _ ok
                  (turn-Finishes c op none m r (is_last-IsOk r ok)))
          | inr bad ↦
              (let retried = subst⁻¹ IsRetried same bad in
                rw (turn-again c op m r retried) (
                  Acknowledged-again op _ _ refl refl (
                    invoke_from-Acknowledged n (k + 1) i
                      (record op { node = m.id; start_ns = r.start_ns; end_ns = r.end_ns })
                      (elim (Bool-cases (nat_eq k i)) [
                        | inl e ↦
                            (let k_i : k ≡ i = (nat_eq_iff k i).0 e in
                              let n_m = sym at ∙ ap (node_for c none start) (sym k_i) ∙ here in
                              absurd (
                                not-IsRetried (respond k (some m))
                                  (subst (λ x. IsOk (respond k x)) n_m (up k)) bad))
                        | inr e ↦ ground (arith, l)
                      ])
                      (omega (arith, u)) at)))
        ])

-- While one of the nodes answers every attempt, and any other either answers or fails definitely before
-- the deadline, a call of Invoke without a pinned node returns within as many attempts as there are
-- nodes, wherever it starts, with a record of its operation that is acknowledged.
pub invoke-Acknowledged :
    (c : Client) (respond : ℕ → Option Node → Round) (start j : ℕ) (node : Node) (op : Op)
    → nth c.nodes j ≡ some node
    → j < length c.nodes
    → ((a : ℕ) → IsOk (respond a (some node)))
    → ((a : ℕ) (m : Node) → IsOk (respond a (some m)) ⊎ IsRetried (respond a (some m)))
    → Acknowledged op (invoke c op none start (schedule c respond start 0 (length c.nodes)))
unfolding invoke node_for
invoke-Acknowledged c respond start j node op at below up others =
    let (k, few, hit) = cycle start (length c.nodes) j below in
    invoke_from-Acknowledged c respond start node (omega (arith, below)) up others (length c.nodes)
      0 k op (omega arith) (omega (arith, few)) (ap (nth c.nodes) hit ∙ at)
