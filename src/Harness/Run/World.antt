-- ===== src/Harness/Run/World.antt =====
-- A small world for runs: a store that answers, three nodes, and a clock that each call moves.
use quorum_kv.Prelude.{
  String, ◌≡◌, refl, Bool, true, false, Option, none, some, List, [], ◌∷◌, ◌==◌, if◌then◌else◌, ok,
  ℕ, ◌+◌,
}
use quorum_kv.Prelude.Int.{pos}
use Prim.Native.String.{◌++◌}
use quorum_kv.Json.{str, obj, Bytes, end, field}
use quorum_kv.Json.Postfix.{postfix}
use quorum_kv.Checker.Scan.{scan}
use quorum_kv.History.{Op}
use quorum_kv.History.File.{write_file}
use quorum_kv.Kv.Command.{Result}
use quorum_kv.Kv.Spec.{Kind, kind_of, answer, next, Registers, update}
use quorum_kv.Harness.Nodes.{Node}
use quorum_kv.Harness.Client.{AttemptResult, classed}
use quorum_kv.Harness.Invoke.{Round}
use quorum_kv.Harness.Invoke.Seen.{command_of}
use quorum_kv.Harness.Runner.{Options, Env, request}
use quorum_kv.Harness.Invoke.Ends.{reaches}
use quorum_kv.Harness.Runner.Total.{Lawful}
use quorum_kv.Prelude.{arith, ◌≤◌}

pub record World : Type 0 where
  pub now : ℕ
  pub store : Registers

abbrev pub answered : Result → AttemptResult
answered r = record { class = "ok"; ok = r.ok; present = r.present; val = r.value }

abbrev pub one_round : World → AttemptResult → (ℕ × List Round) × World
one_round w a = (
  (0, record { start_ns = pos w.now; end_ns = pos (w.now + 1); result = a; late = true } ∷ []),
  record w { now = w.now + 2 },
)

-- The store carries out what it is sent, but nothing that goes to the isolated node.
abbrev pub attempts : Op → Bool → Option Kind → World → (ℕ × List Round) × World
attempts op true k w = one_round w (classed "fail")
attempts op false none w = one_round w (classed "fail")
attempts op false (some k) w =
    let old = w.store op.key in
    one_round (record w { store = update w.store op.key (next k (command_of op) old) })
      (answered (answer k (command_of op) old))

abbrev pub body : Bytes
body = postfix.print (
    obj (
      field "leader_id" (str "n1")
        (field "node" (str "n1") (field "last_applied" (str "7") (field "data" (obj end) end)))))

abbrev pub put_a : Op
put_a = record (request (pos 1) "put" "a" "1" none) { end_ns = pos 1; outcome = "ok"; ok = true }

-- the read of the key after the put, and what it found
abbrev pub get_a : Bool → String → Op
get_a present v = record (request (pos 2) "get" "a" "" none) {
  start_ns = pos 2;
  end_ns = pos 3;
  outcome = "ok";
  ok = true;
  present = present;
  ret_val = v;
}

abbrev pub fixture : String → Bytes
fixture path = write_file postfix (
    put_a
    ∷ (if path == "fixtures/known-good-history.jsonl" then get_a true "1" else get_a false "")
    ∷ [])

abbrev pub world : Env World
world = record {
  clock = λ w. w.now;
  sleep = λ d w. record w { now = w.now + d };
  idle = λ d w. w;
  intn = λ n w. (0, w);
  float64 = λ w. (0, w);
  attempts = λ c op deadline no_proxy pin w. attempts op no_proxy (kind_of op.op) w;
  busy = λ w. (0 ∷ [], w);
  pick = λ n w. (0, w);
  exec = λ argv w. (("", none), w);
  http_get = λ url w. (some body, w);
  read_file = λ path w. (ok (fixture path), w);
  write_file = λ path b w. (none, w);
  mkdir_all = λ path w. (none, w);
  visualize = λ path w. (false, w);
  join = λ dir file. dir ++ ("/" ++ file);
  quote = λ s. s;
  duration_text = λ d. "a while";
  report_text = λ r. "";
  text = postfix;
  porcupine = scan;
  patience = 200;
}

abbrev pub node : String → Node
node s = record { id = s; url = "http://" ++ s; container = s; ip = s }

abbrev pub options : Bool → Options
options skip_faults = record {
  nodes = node "n1" ∷ node "n2" ∷ node "n3" ∷ [];
  duration = 1000;
  num_clients = 1;
  num_keys = 1;
  seed = pos 7;
  out_dir = "out";
  fixtures_dir = "fixtures";
  skip_faults = skip_faults;
}

abbrev pub start : World
start = record { now = 0; store = λ k. none }

attempts-later :
    (op : Op) (direct : Bool) (k : Option Kind) (w : World) → w.now ≤ (attempts op direct k w).1.now
attempts-later op true k w = omega arith
attempts-later op false none w = omega arith
attempts-later op false (some k) w = omega arith

attempts-reaches :
    (op : Op) (direct : Bool) (k : Option Kind) (w : World)
    → reaches (attempts op direct k w).0.1 ≡ true
unfolding reaches
attempts-reaches op true k w = refl
attempts-reaches op false none w = refl
attempts-reaches op false (some k) w = refl

pub world-Lawful : Lawful world
world-Lawful = record {
  sleep_later = λ d w. omega arith;
  idle_later = λ d w. omega arith;
  intn_later = λ n w. omega arith;
  intn_below = λ n w. omega arith;
  float64_later = λ w. omega arith;
  attempts_later = λ c op d direct pin w. attempts-later op direct (kind_of op.op) w;
  attempts_end = λ c op d direct pin w. attempts-reaches op direct (kind_of op.op) w;
  busy_later = λ w. omega arith;
  pick_later = λ n w. omega arith;
  pick_below = λ n w. omega arith;
  exec_later = λ argv w. omega arith;
  http_get_later = λ url w. omega arith;
  read_file_later = λ path w. omega arith;
  write_file_later = λ path b w. omega arith;
  mkdir_all_later = λ path w. omega arith;
  visualize_later = λ path w. omega arith;
}
