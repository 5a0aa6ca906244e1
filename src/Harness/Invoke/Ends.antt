-- ===== src/Harness/Invoke/Ends.antt =====
-- Invoke ends where one of its rounds is a last one.
use quorum_kv.Prelude.{
  ◌≡◌, refl, Bool, true, false, ◌||◌, Option, List, [], ◌∷◌, arith, inl, inr, Bool-cases, length, ℕ,
  ◌+◌, ◌<◌,
}
use quorum_kv.History.{Op}
use quorum_kv.Harness.Nodes.{Node}
use quorum_kv.Harness.Invoke.{Client, Round, Turn, finished, again, invoke_from, invoke, is_some}
use quorum_kv.Harness.Invoke.Attempts.{
  is_last, Finishes, finishes, turn-Finishes, node_for-some, turned, invoke_from-cons,
}

-- One of the rounds is a success, an unknown outcome or a definite failure after the deadline.
unfoldable pub reaches : List Round → Bool
reaches [] = false
reaches (r ∷ rs) = is_last r || reaches rs

is_some-Finishes :
    (c : Client) (op : Op) (node : Node) (r : Round) (rest : Op → Option (Client × Op)) (t : Turn)
    → Finishes c op node r t
    → is_some (turned rest t) ≡ true
is_some-Finishes c op node r rest _ (finishes c' done e) = refl

is_some-turned :
    (rest : Op → Option (Client × Op)) (t : Turn)
    → ((o : Op) → is_some (rest o) ≡ true)
    → is_some (turned rest t) ≡ true
is_some-turned rest (finished c done) h = refl
is_some-turned rest (again o) h = h o

invoke_from-ends :
    (c : Client) (op : Op) (pin : Option Node) (start attempt : ℕ) (rounds : List Round)
    → 0 < length c.nodes
    → reaches rounds ≡ true
    → is_some (invoke_from c op pin start attempt rounds) ≡ true
unfolding reaches
invoke_from-ends c op pin start attempt [] n h = absurd cc
invoke_from-ends c op pin start attempt (r ∷ rs) n h =
    let (node, here) = node_for-some c pin start attempt n in
    rw (invoke_from-cons c op pin start attempt r rs node here) (elim (Bool-cases (is_last r)) [
      | inl last ↦ is_some-Finishes c op node r _ _ (turn-Finishes c op pin node r last)
      | inr more ↦
          is_some-turned _ _
            (λ o. invoke_from-ends c o pin start (attempt + 1) rs n (ground (arith, h, more)))
    ])

pub invoke-ends :
    (c : Client) (op : Op) (pin : Option Node) (start : ℕ) (rounds : List Round)
    → 0 < length c.nodes
    → reaches rounds ≡ true
    → is_some (invoke c op pin start rounds) ≡ true
unfolding invoke
invoke-ends c op pin start rounds n h = invoke_from-ends c op pin start 0 rounds n h
