-- ===== src/Harness/Phases/Convergence.antt =====
-- internal/harness/run.go: phaseConvergence.
pub mod Same
use quorum_kv.Prelude.{
  String, Bool, true, false, ◌&&◌, not, Option, none, some, List, [], ◌∷◌, ◌==◌, if◌then◌else◌,
  length, ℕ, zero, suc, ◌+◌, ◌*◌, ltb, nat_eq,
}
use quorum_kv.Harness.Nodes.{Node}
use quorum_kv.Harness.Runner.{
  Env, Run, pure, stuck, outside, asks, ◌>>=◌, ◌>>◌, wait, check, second,
}
use quorum_kv.Prelude.{◌⊎◌, inl, inr}
use Prim.Native.String.{◌++◌}
use quorum_kv.Fmt.{decimal}
use quorum_kv.Harness.Faults.{heal_all}
use quorum_kv.GoMap.{GoMap, nil_map, made, Entries, lookup, entries}
use quorum_kv.Json.{Json, null, obj, JsonError, Bytes}
use quorum_kv.Json.Decode.{Slot, read_string, unmarshal}
use quorum_kv.Kv.Fsm.{fill_map}

-- the struct `state`, which the body of /internal/state is read into
pub record NodeState : Type 0 where
  pub node : String
  pub last_applied : String
  pub contents : GoMap String  -- the field `Data`

abbrev pub fits_map : Entries String × Option JsonError → GoMap String × Bool
fits_map (m, none) = (made m, true)
fits_map (m, some x) = (made m, false)

-- a map is read into the one that the field has
abbrev pub read_map : Json → GoMap String → GoMap String × Bool
read_map null old = (nil_map, true)
read_map (obj fs) old = fits_map (fill_map fs (entries old) none)
read_map _ old = (old, false)

abbrev pub state_slots : List (Slot NodeState)
state_slots =
    record {
      name = "node";
      fill = λ j s. let (v, fits) = read_string j s.node in (record s { node = v }, fits);
    }
    ∷ record {
      name = "last_applied";
      fill = λ j s.
          let (v, fits) = read_string j s.last_applied in (record s { last_applied = v }, fits);
    }
    ∷ record {
      name = "data";
      fill = λ j s. let (v, fits) = read_map j s.contents in (record s { contents = v }, fits);
    }
    ∷ []

-- the two values are there and the same
abbrev pub same_value : Option String → String → Bool
same_value none v = false
same_value (some w) v = w == v

-- every entry is one of the map's, too
unfoldable pub all_found : Entries String → Entries String → Bool
unfolding lookup
all_found [] m = true
all_found ((k, v) ∷ l) m = same_value (lookup k m) v && all_found l m

-- reflect.DeepEqual of two maps
unfoldable pub deep_equal : GoMap String → GoMap String → Bool
unfolding all_found
deep_equal nil_map nil_map = true
deep_equal nil_map (made m) = false
deep_equal (made l) nil_map = false
deep_equal (made l) (made m) = nat_eq (length l) (length m) && all_found l m

-- The states, if there are three.
abbrev pub three_of : List NodeState → Option (NodeState × NodeState × NodeState)
three_of (a ∷ b ∷ c ∷ []) = some (a, b, c)
three_of _ = none

unfoldable pub identical : NodeState → NodeState → NodeState → Bool
unfolding deep_equal
identical a b c =
    deep_equal a.contents b.contents
    && deep_equal b.contents c.contents
    && a.last_applied == b.last_applied
    && b.last_applied == c.last_applied

module _ {W : Type 0} (e : Env W) where
  abbrev pub state_in : NodeState × Option JsonError → Option NodeState
  state_in (s, none) = some s
  state_in (s, some x) = none

  abbrev pub state_of : Option Bytes → Option NodeState
  state_of none = none
  state_of (some body) = state_in (
      unmarshal e.text state_slots body
        (record { node = ""; last_applied = ""; contents = nil_map }))

  -- a state and those of the nodes behind it, or nothing if there is none
  abbrev pub kept_state : Run W (List NodeState) → Option NodeState → Run W (List NodeState)
  kept_state later none = pure []
  kept_state later (some s) = do rest ← later; pure (s ∷ rest)

  -- the states of the nodes, up to the first that does not give one
  unfoldable pub states_of : List Node → Run W (List NodeState)
  unfolding unmarshal
  states_of [] = pure []
  states_of (n ∷ ns) = do
    body ← outside (e.http_get (n.url ++ "/internal/state"))
    kept_state (states_of ns) (state_of body)

  abbrev pub converged_text : NodeState → String
  converged_text a =
      "all 3 nodes identical: "
      ++ (decimal (length (entries a.contents)) ++ (" keys at applied index " ++ a.last_applied))

  abbrev pub indexes_text : NodeState → NodeState → NodeState → String
  indexes_text a b c =
      "applied indexes: "
      ++ (a.last_applied ++ ("/" ++ (b.last_applied ++ ("/" ++ c.last_applied))))

  -- what a round finds: that the nodes have converged, or the remark to go on with
  unfoldable pub compared : List NodeState → String ⊎ String
  unfolding identical decimal
  compared states = elim (three_of states) [
    | none ↦ inr ("only " ++ (decimal (length states) ++ "/3 nodes reachable"))
    | some (a, b, c) ↦ if identical a b c then inl (converged_text a) else inr (indexes_text a b c)
  ]

  -- the end of the loop's body, before the loop `again`
  abbrev pub settle : (String → Run W (Unit {0})) → String ⊎ String → Run W (Unit {0})
  settle again (inl detail) = check "replicas-converge" true detail
  settle again (inr detail) = do wait (e.sleep (2 * second)); again detail

  -- the loop's body, in time
  unfoldable pub converge_round : List Node → (String → Run W (Unit {0})) → Run W (Unit {0})
  unfolding states_of compared check
  converge_round nodes again = do states ← states_of nodes; settle again (compared states)

  unfoldable pub converge_loop : ℕ → ℕ → List Node → String → Run W (Unit {0})
  unfolding converge_round check
  converge_loop zero deadline nodes detail = stuck
  converge_loop (suc n) deadline nodes detail = do
    now ← outside (λ w. (e.clock w, w))
    if not (ltb now deadline)
        then check "replicas-converge" false ("no convergence within 90s: " ++ detail)
        else converge_round nodes (converge_loop n deadline nodes)

  unfoldable pub phase_convergence : Run W (Unit {0})
  unfolding converge_loop heal_all
  phase_convergence = do
    nodes ← asks (λ r. r.options.nodes)
    heal_all e nodes
    now ← outside (λ w. (e.clock w, w))
    converge_loop e.patience (now + 90 * second) nodes ""
