-- ===== src/Harness/Faults/Tests.antt =====
-- HealAll on a small docker, behind a kill and an isolation.
use quorum_kv.Prelude.{
  String, Bool, true, false, ◌||◌, ◌&&◌, none, List, [], ◌∷◌, ◌==◌, if◌then◌else◌, ok, eq_iff,
  arith,
}
use quorum_kv.Prelude.Int.{pos}
use quorum_kv.Json.Postfix.{postfix}
use quorum_kv.Checker.Scan.{scan}
use quorum_kv.Harness.Nodes.{Node}
use quorum_kv.Harness.Runner.{Env, State, Options}
use quorum_kv.Harness.Run.{new_runner}
use quorum_kv.Harness.Faults.{heal_all}
use quorum_kv.Harness.Faults.Healed.{Docker, Reopens, heal_all-IsOpen}

record Containers : Type 0 where
  up : String → Bool
  rules : String → String → List (List String)

-- `docker start`, `iptables -F` and `iptables -I` in a container that is up, and `docker kill`
abbrev execute : List String → Containers → Containers
execute (docker ∷ verb ∷ c ∷ []) w = record w { up = λ d. c == d || w.up d }
execute (docker ∷ verb ∷ c ∷ iptables ∷ flag ∷ chain ∷ rest) w = record w {
  rules = λ d other.
      if w.up c && (c == d && chain == other)
      then if flag == "-F" then [] else rest ∷ w.rules d other
      else w.rules d other;
}
execute (docker ∷ kill ∷ s ∷ signal ∷ c ∷ []) w = record w {
  up = λ d. if c == d then false else w.up d;
}
execute other w = w

abbrev env : Env Containers
env = record {
  clock = λ w. 0;
  sleep = λ n w. w;
  idle = λ n w. w;
  intn = λ n w. (0, w);
  float64 = λ w. (0, w);
  attempts = λ c op d p pin w. ((0, []), w);
  busy = λ w. ([], w);
  pick = λ n w. (0, w);
  exec = λ argv w. (("", none), execute argv w);
  http_get = λ url w. (none, w);
  read_file = λ path w. (ok "", w);
  write_file = λ path b w. (none, w);
  mkdir_all = λ path w. (none, w);
  visualize = λ path w. (false, w);
  join = λ a b. b;
  quote = λ s. s;
  duration_text = λ n. "";
  report_text = λ r. "";
  text = postfix;
  porcupine = scan;
  patience = 0;
}

docker : Docker env
docker = record {
  running = λ w. w.up;
  rules = λ w. w.rules;
  starts = λ c w. ground (arith, eq_iff c c);
  start_stops_none = λ c d w h. ground (arith, h);
  start_adds_none = λ c d chain w h. h;
  flushes = λ c chain w h. ground (arith, h, eq_iff c c, eq_iff chain chain);
  flush_stops_none = λ c chain d w h. h;
  flush_adds_none = λ c chain d other w h. ground (arith, h);
}

abbrev node : String → Node
node id = record { id = id; url = ""; container = id; ip = id }

abbrev nodes : List Node
nodes = node "n1" ∷ node "n2" ∷ node "n3" ∷ []

abbrev options : Options
options = record {
  nodes = nodes;
  duration = 0;
  num_clients = 0;
  num_keys = 0;
  seed = pos 0;
  out_dir = "";
  fixtures_dir = "";
  skip_faults = false;
}

-- one node is down, and the others drop what comes from it
abbrev shaken : Containers
shaken = record {
  up = λ c. if c == "n1" then false else true;
  rules = λ c chain. if c == "n1" then [] else ("-s" ∷ "n1" ∷ "-j" ∷ "DROP" ∷ []) ∷ [];
}

abbrev before : State Containers
before = record { runner = new_runner 0 options; world = shaken }

heal_all-IsOpen_example : Reopens env docker nodes before (heal_all env nodes before)
heal_all-IsOpen_example = heal_all-IsOpen env docker nodes before
