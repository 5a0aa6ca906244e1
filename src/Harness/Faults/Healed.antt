-- ===== src/Harness/Faults/Healed.antt =====
-- internal/harness/faults.go: HealAll, where docker and iptables do what they document.
use quorum_kv.Prelude.{◌++◌, String, ◌≡◌, refl, Bool, true, Option, none, some, List, [], ◌∷◌, All}
use quorum_kv.Harness.Nodes.{Node}
use quorum_kv.Harness.Runner.{FaultEvent, Env, State, pure, outside, ◌>>=◌, add_event}
use quorum_kv.Harness.Faults.{exec, exec_all, heal_commands, heal_all, record_event}
use quorum_kv.Harness.Faults.Undone.{flush}

abbrev pub start_of : String → List String
start_of container = "docker" ∷ "start" ∷ container ∷ []

-- What `docker start` and `iptables -F` in a container do: the first brings the container up, the second
-- empties the chain of a container that is up, and neither stops a container or adds a rule.
pub record Docker {W : Type 0} (e : Env W) : Type 0 where
  pub running : W → String → Bool
  pub rules : W → String → String → List (List String)
  pub starts : (c : String) (w : W) → running (e.exec (start_of c) w).1 c ≡ true
  pub start_stops_none :
      (c d : String) (w : W) → running w d ≡ true → running (e.exec (start_of c) w).1 d ≡ true
  pub start_adds_none :
      (c d chain : String) (w : W)
      → rules w d chain ≡ []
      → rules (e.exec (start_of c) w).1 d chain ≡ []
  pub flushes :
      (c chain : String) (w : W)
      → running w c ≡ true
      → rules (e.exec (flush c chain) w).1 c chain ≡ []
  pub flush_stops_none :
      (c chain d : String) (w : W)
      → running w d ≡ true
      → running (e.exec (flush c chain) w).1 d ≡ true
  pub flush_adds_none :
      (c chain d other : String) (w : W)
      → rules w d other ≡ []
      → rules (e.exec (flush c chain) w).1 d other ≡ []

module _ {W : Type 0} (e : Env W) (docker : Docker e) where
  -- The container of the node is up, and drops nothing.
  pub record IsOpen (w : W) (n : Node) : Type 0 where
    pub up : docker.running w n.container ≡ true
    pub input : docker.rules w n.container "INPUT" ≡ []
    pub output : docker.rules w n.container "OUTPUT" ≡ []

  start-IsOpen : (c : String) (w : W) (n : Node) → IsOpen w n → IsOpen (e.exec (start_of c) w).1 n
  start-IsOpen c w n h = record {
    up = docker.start_stops_none c n.container w h.up;
    input = docker.start_adds_none c n.container "INPUT" w h.input;
    output = docker.start_adds_none c n.container "OUTPUT" w h.output;
  }

  flush-IsOpen :
      (c chain : String) (w : W) (n : Node) → IsOpen w n → IsOpen (e.exec (flush c chain) w).1 n
  flush-IsOpen c chain w n h = record {
    up = docker.flush_stops_none c chain n.container w h.up;
    input = docker.flush_adds_none c chain n.container "INPUT" w h.input;
    output = docker.flush_adds_none c chain n.container "OUTPUT" w h.output;
  }

  -- the world after the three commands of HealAll for a node
  abbrev healed_node : Node → W → W
  healed_node n w =
      (e.exec (flush n.container "OUTPUT")
        (e.exec (flush n.container "INPUT") (e.exec (start_of n.container) w).1).1).1

  healed_node-IsOpen : (n : Node) (w : W) → IsOpen (healed_node n w) n
  healed_node-IsOpen n w =
      let up = docker.starts n.container w in
      let w1 = (e.exec (start_of n.container) w).1 in
      let w2 = (e.exec (flush n.container "INPUT") w1).1 in
      let up2 = docker.flush_stops_none n.container "INPUT" n.container w1 up in
      record {
        up = docker.flush_stops_none n.container "OUTPUT" n.container w2 up2;
        input =
            docker.flush_adds_none n.container "OUTPUT" n.container "INPUT" w2
              (docker.flushes n.container "INPUT" w1 up);
        output = docker.flushes n.container "OUTPUT" w2 up2;
      }

  healed_node-keeps : (n m : Node) (w : W) → IsOpen w m → IsOpen (healed_node n w) m
  healed_node-keeps n m w h =
      flush-IsOpen n.container "OUTPUT" _ m
        (flush-IsOpen n.container "INPUT" _ m (start-IsOpen n.container w m h))

  -- What the commands of HealAll have done, without a change of the runner.
  record Ran (nodes : List Node) (s : State W) (x : Option (Option String × State W)) : Type 0 where
    error : Option String
    after : W
    runs : x ≡ some (error, record s { world = after })
    opened : All (IsOpen after) nodes
    kept : (m : Node) → IsOpen s.world m → IsOpen after m

  heal_commands-Ran :
      (nodes : List Node) (first : Option String) (s : State W)
      → Ran nodes s (exec_all e (heal_commands nodes) first s)
  unfolding exec_all heal_commands ◌>>=◌ exec outside pure
  heal_commands-Ran [] first s = record {
    error = first;
    after = s.world;
    runs = refl;
    opened = tt;
    kept = λ m h. h;
  }
  heal_commands-Ran (n ∷ nodes) first s =
      let w = healed_node n s.world in
      let rest = heal_commands-Ran nodes _ (record s { world = w }) in
      record {
        error = rest.error;
        after = rest.after;
        runs = rest.runs;
        opened = (rest.kept n (healed_node-IsOpen n s.world), rest.opened);
        kept = λ m h. rest.kept m (healed_node-keeps n m s.world h);
      }

  -- HealAll ends with one event, and leaves every container up and open.
  pub record Reopens (nodes : List Node) (s : State W) (x : Option (Unit {0} × State W))
      : Type 0 where
    pub after : W
    pub event : FaultEvent
    pub heals : event.action ≡ "heal"
    pub runs :
        x
        ≡ some (
          tt,
          record s {
            runner = record s.runner { events = s.runner.events ++ event ∷ [] };
            world = after;
          },
        )
    pub opened : All (IsOpen after) nodes

  -- Where docker and iptables do what they document, HealAll comes to an end from every state, whatever
  -- was killed or isolated before, and leaves the container of each of its nodes up, with no rule in its
  -- INPUT and OUTPUT chains. It has logged one event, a heal.
  pub heal_all-IsOpen : (nodes : List Node) (s : State W) → Reopens nodes s (heal_all e nodes s)
  unfolding heal_all record_event add_event ◌>>=◌ outside
  heal_all-IsOpen nodes s =
      let ran = heal_commands-Ran nodes none s in
      rw ran.runs (record {
        after = ran.after;
        event = record {
          at = e.clock ran.after;
          action = "heal";
          target = "all";
          detail = "iptables flushed, all containers started";
        };
        heals = refl;
        runs = refl;
        opened = ran.opened;
      })
