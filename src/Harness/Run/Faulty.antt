-- ===== src/Harness/Run/Faulty.antt =====
-- What the actions of the fault injector do to the fault log.
use quorum_kv.Prelude.{◌∙◌, String, ◌≡◌, Option, none, some, List, [], ◌∷◌}
use quorum_kv.Harness.Nodes.{Node}
use quorum_kv.Harness.Runner.{Options, Env, State, Run}
use quorum_kv.Prelude.{◌∙◌, ap, sym}
use quorum_kv.Harness.Runner.Rules.{
  Triple, Any, Triple-pure, Triple-if, Triple-bind, Triple-weaken, Triple-strengthen,
}
use quorum_kv.Harness.Run.Log.{
  Condition, healed, killed, cut, condition_after-kill, condition_after-partition,
  condition_after-start, condition_after-heal,
}
use quorum_kv.Harness.Run.Good.{Good, Good-outside, Good-event}
use quorum_kv.Harness.Faults.{
  exec, exec_all, kill, start, isolate, isolate_commands, heal_all, heal_commands, leader_id,
}

-- Nothing is out of order.
abbrev pub Healed : Option Condition → Type 0
Healed l = l ≡ some healed

-- That node is killed, and nothing else is out of order.
abbrev pub Killed : String → Option Condition → Type 0
Killed n l = l ≡ some (killed n)

-- Every event so far was in order.
abbrev pub InOrder : Option Condition → Type 0
InOrder l = (c : Condition) × (l ≡ some c)

module _ {W : Type 0} {o : Options} {ns : List String} {L M : Option Condition → Type 0} where
  pub Good-relax :
      ((l : Option Condition) → L l → M l) → (s : State W) → Good o ns L s → Good o ns M s
  Good-relax h s g = record {
    same_options = g.same_options;
    usable = g.usable;
    reset = g.reset;
    log = h _ g.log;
    names = g.names;
  }

module _ {W : Type 0} {A : Type 0} {o : Options} {ns : List String} {V : A → Type 0}
    {m : Run W A} where
  pub relax-Healed :
      Triple (Good o ns Healed) V (Good o ns Healed) m
      → Triple (Good o ns Healed) V (Good o ns InOrder) m
  relax-Healed h = Triple-weaken (Good-relax λ l p. (healed, p)) h

  pub relax_start :
      Triple (Good o ns InOrder) V (Good o ns Healed) m
      → Triple (Good o ns Healed) V (Good o ns Healed) m
  relax_start h = Triple-strengthen (Good-relax λ l p. (healed, p)) h

module _ {W : Type 0} (e : Env W) {o : Options} {ns : List String}
    {L : Option Condition → Type 0} where
  pub exec_all-Good :
      (argvs : List (List String)) (x : Option String)
      → Triple (Good o ns L) Any (Good o ns L) (exec_all e argvs x)
  unfolding exec_all exec
  exec_all-Good [] x = Triple-pure _ tt
  exec_all-Good (argv ∷ argvs) x = Triple-bind (Good-outside _) λ r _. exec_all-Good argvs _

  pub leader_id-Good :
      (nodes : List Node) → Triple (Good o ns L) Any (Good o ns L) (leader_id e nodes)
  unfolding leader_id
  leader_id-Good [] = Triple-pure _ tt
  leader_id-Good (n ∷ nodes) =
      Triple-bind (Good-outside _) λ body _. Triple-if _ (leader_id-Good nodes) (Triple-pure _ tt)

module _ {W : Type 0} (e : Env W) {o : Options} {ns : List String} where
  pub kill-Good : (n : Node) → Triple (Good o ns Healed) Any (Good o ns (Killed n.id)) (kill e n)
  unfolding kill exec
  kill-Good n = Triple-bind (Good-outside _) λ r _.
      Triple-bind
        (Good-event e Healed (Killed n.id) "kill" n.id r.0
          λ evs ev l a t. condition_after-kill evs ev l a ∙ ap (λ x. some (killed x)) t)
        λ u _. Triple-pure _ tt

  pub start-Good : (n : Node) → Triple (Good o ns (Killed n.id)) Any (Good o ns Healed) (start e n)
  unfolding start exec
  start-Good n = Triple-bind (Good-outside _) λ r _.
      Triple-bind
        (Good-event e (Killed n.id) Healed "start" n.id r.0
          λ evs ev l a t. condition_after-start evs ev (l ∙ ap (λ x. some (killed x)) (sym t)) a)
        λ u _. Triple-pure _ tt

  pub isolate-Good :
      (nodes : List Node) (n : Node)
      → Triple (Good o ns Healed) Any (Good o ns InOrder) (isolate e nodes n)
  unfolding isolate
  isolate-Good nodes n = Triple-bind (exec_all-Good e (isolate_commands nodes n) none) λ r _.
      Triple-bind
        (Good-event e Healed InOrder _ _ _
          λ evs ev l a t. (cut ev.target, condition_after-partition evs ev l a))
        λ u _. Triple-pure _ tt

  pub heal_all-Good :
      (nodes : List Node) → Triple (Good o ns InOrder) Any (Good o ns Healed) (heal_all e nodes)
  unfolding heal_all
  heal_all-Good nodes = Triple-bind (exec_all-Good e (heal_commands nodes) none) λ r _.
      Good-event e InOrder Healed _ _ _ λ evs ev (c, l) a t. condition_after-heal evs ev c l a
