-- ===== src/Harness/Faults/Undone.antt =====
-- internal/harness/faults.go: HealAll against Isolate and Kill.
use quorum_kv.Prelude.{
  String, refl, Bool, true, false, List, [], ◌∷◌, ◌==◌, if◌then◌else◌, All, All-append, ap,
}
use mathlib.Core.List.{Memᴰ, ◌++◌}
use quorum_kv.Harness.Nodes.{Node}
use quorum_kv.Harness.Faults.{drop_commands, isolate_commands, heal_commands}

-- flushing a chain of a container
abbrev pub flush : String → String → List String
flush container chain = "docker" ∷ "exec" ∷ container ∷ "iptables" ∷ "-F" ∷ chain ∷ []

-- What removes the rule that a command inserts: the flush of the same chain in the same container.
abbrev pub flush_of : List String → List String
flush_of (docker ∷ exec ∷ container ∷ iptables ∷ flag ∷ chain ∷ rest) = flush container chain
flush_of _ = []

-- A healing command for the container of each node: it is started and its two chains are flushed.
record Heals (cs : List (List String)) (n : Node) : Type 0 where
  starts : Memᴰ ("docker" ∷ "start" ∷ n.container ∷ []) cs
  input : Memᴰ (flush n.container "INPUT") cs
  output : Memᴰ (flush n.container "OUTPUT") cs

heal_commands-Heals : (nodes : List Node) (n : Node) → Memᴰ n nodes → Heals (heal_commands nodes) n
unfolding heal_commands
heal_commands-Heals [] n h = elim h [ ]
heal_commands-Heals (m ∷ nodes) n (Memᴰ.head e) = record {
  starts = Memᴰ.head (ap (λ x. "docker" ∷ "start" ∷ x.container ∷ []) e);
  input = Memᴰ.tail (Memᴰ.head (ap (λ x. flush x.container "INPUT") e));
  output = Memᴰ.tail (Memᴰ.tail (Memᴰ.head (ap (λ x. flush x.container "OUTPUT") e)));
}
heal_commands-Heals (m ∷ nodes) n (Memᴰ.tail h) =
    let rest = heal_commands-Heals nodes n h in
    record {
      starts = Memᴰ.tail (Memᴰ.tail (Memᴰ.tail rest.starts));
      input = Memᴰ.tail (Memᴰ.tail (Memᴰ.tail rest.input));
      output = Memᴰ.tail (Memᴰ.tail (Memᴰ.tail rest.output));
    }

module _ (cs : List (List String)) (n : Node) (own : Heals cs n) where
  abbrev Flushed : List (List String) → Type 0
  Flushed = All (λ c. Memᴰ (flush_of c) cs)

  drop_commands-Flushed : (peer : Node) → Heals cs peer → Flushed (drop_commands n peer)
  unfolding drop_commands
  drop_commands-Flushed peer h = (own.input, (own.output, (h.input, (h.output, tt))))

  Flushed-if :
      (b : Bool) (xs ys : List (List String))
      → Flushed xs
      → Flushed ys
      → Flushed (if b then xs else ys)
  Flushed-if true xs ys p q = p
  Flushed-if false xs ys p q = q

  isolate_commands-Flushed :
      (peers : List Node)
      → ((p : Node) → Memᴰ p peers → Heals cs p)
      → Flushed (isolate_commands peers n)
  unfolding isolate_commands
  isolate_commands-Flushed [] h = tt
  isolate_commands-Flushed (peer ∷ peers) h =
      let rest = isolate_commands-Flushed peers (λ p m. h p (Memᴰ.tail m)) in
      Flushed-if (peer.id == n.id) (isolate_commands peers n)
        (drop_commands n peer ++ isolate_commands peers n) rest
        (All-append (λ c. Memᴰ (flush_of c) cs) (drop_commands n peer) (isolate_commands peers n)
          (drop_commands-Flushed peer (h peer (Memᴰ.head refl))) rest)

-- For a node of the list, HealAll undoes what Isolate and Kill do to it: it starts the node's container
-- again, and for each rule that Isolate inserts, at the node or at one of its peers, it flushes that
-- chain in that container.
pub heal-isolate :
    (nodes : List Node) (n : Node)
    → Memᴰ n nodes
    → Memᴰ ("docker" ∷ "start" ∷ n.container ∷ []) (heal_commands nodes)
      × All (λ c. Memᴰ (flush_of c) (heal_commands nodes)) (isolate_commands nodes n)
heal-isolate nodes n h =
    let own = heal_commands-Heals nodes n h in
    (
      own.starts,
      isolate_commands-Flushed (heal_commands nodes) n own nodes (heal_commands-Heals nodes),
    )
