-- ===== src/Harness/Run/Log.antt =====
-- The fault log as a state machine: what is out of order after the events so far.
use quorum_kv.Prelude.{
  eq_refl, String, ◌≡◌, refl, ◌&&◌, Option, none, some, List, [], ◌∷◌, ◌==◌, if◌then◌else◌,
}
use quorum_kv.Harness.Runner.{FaultEvent}
use mathlib.Core.List.{◌++◌}

pub data Condition : Type 0 where
  healed : Condition
  killed : String → Condition
  cut : String → Condition

-- One event. A fault is injected only if nothing is out of order, a start ends the kill of that node,
-- and a heal ends everything; anything else is not in order.
abbrev pub react : Condition → String → String → Option Condition
react healed action target =
    if action == "kill"
    then some (killed target)
    else if action == "partition"
    then some (cut target)
    else if action == "heal"
    then some healed
    else none
react (killed n) action target =
    if action == "start" && target == n
    then some healed
    else if action == "heal"
    then some healed
    else none
react (cut n) action target = if action == "heal" then some healed else none

abbrev reacted : Option Condition → FaultEvent → Option Condition
reacted none ev = none
reacted (some c) ev = react c ev.action ev.target

-- the condition after some more events
unfoldable pub follow : Option Condition → List FaultEvent → Option Condition
follow c [] = c
follow c (ev ∷ evs) = follow (reacted c ev) evs

-- The condition that a log leaves behind; `none` if it has an event that was not in order.
unfoldable pub condition_after : List FaultEvent → Option Condition
unfolding follow
condition_after evs = follow (some healed) evs

follow-append :
    (c : Option Condition) (evs : List FaultEvent) (ev : FaultEvent)
    → follow c (evs ++ ev ∷ []) ≡ reacted (follow c evs) ev
unfolding follow
follow-append c [] ev = refl
follow-append c (x ∷ evs) ev = follow-append (reacted c x) evs ev

module _ (evs : List FaultEvent) (ev : FaultEvent) where
  pub condition_after-kill :
      condition_after evs ≡ some healed
      → ev.action ≡ "kill"
      → condition_after (evs ++ ev ∷ []) ≡ some (killed ev.target)
  unfolding condition_after
  condition_after-kill h a = rw (follow-append (some healed) evs ev, h, a)

  pub condition_after-partition :
      condition_after evs ≡ some healed
      → ev.action ≡ "partition"
      → condition_after (evs ++ ev ∷ []) ≡ some (cut ev.target)
  unfolding condition_after
  condition_after-partition h a = rw (follow-append (some healed) evs ev, h, a)

  pub condition_after-start :
      condition_after evs ≡ some (killed ev.target)
      → ev.action ≡ "start"
      → condition_after (evs ++ ev ∷ []) ≡ some healed
  unfolding condition_after
  condition_after-start h a = rw (follow-append (some healed) evs ev, h, a, eq_refl ev.target)

  pub condition_after-heal :
      (c : Condition)
      → condition_after evs ≡ some c
      → ev.action ≡ "heal"
      → condition_after (evs ++ ev ∷ []) ≡ some healed
  unfolding condition_after
  condition_after-heal healed h a = rw (follow-append (some healed) evs ev, h, a)
  condition_after-heal (killed n) h a = rw (follow-append (some healed) evs ev, h, a)
  condition_after-heal (cut n) h a = rw (follow-append (some healed) evs ev, h, a)
