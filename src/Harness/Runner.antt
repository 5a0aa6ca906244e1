-- ===== src/Harness/Runner.antt =====
-- internal/harness/run.go: the runner's state, and its methods as actions on that state and the world.
pub mod Rules
pub mod Total
pub mod Steady
use quorum_kv.Prelude.{
  String, Bool, true, false, not, Option, none, some, List, [], ◌∷◌, ◌++◌, if◌then◌else◌, Try, ok,
  err, ℕ,
}
use quorum_kv.Prelude.Int.{ℤ, pos}
use quorum_kv.Json.{JsonText, Bytes}
use quorum_kv.Checker.Check.{Porcupine}
use quorum_kv.History.{Op}
use quorum_kv.Harness.Nodes.{Node}
use quorum_kv.Harness.Invoke.{Client, Round, invoke}

pub record CheckResult : Type 0 where
  pub name : String
  pub pass : Bool
  pub detail : String

-- FaultEvent, its time in nanoseconds
pub record FaultEvent : Type 0 where
  pub at : ℕ
  pub action : String
  pub target : String
  pub detail : String

pub record Report : Type 0 where
  pub started_at : ℕ
  pub finished_at : ℕ
  pub seed : ℤ
  pub checks : List CheckResult
  pub faults : List FaultEvent
  pub ops_total : ℕ
  pub ops_ok : ℕ
  pub ops_failed : ℕ
  pub ops_unknown : ℕ
  pub history_file : String
  pub all_passed : Bool

-- Options, without the logging function; the numbers of clients and keys are not negative.
pub record Options : Type 0 where
  pub nodes : List Node
  pub duration : ℕ
  pub num_clients : ℕ
  pub num_keys : ℕ
  pub seed : ℤ
  pub out_dir : String
  pub fixtures_dir : String
  pub skip_faults : Bool

-- runner, with the records of its recorder and the events of its injector
pub record Runner : Type 0 where
  pub options : Options
  pub recorded : List Op
  pub events : List FaultEvent
  pub report : Report

-- What a run uses of its surroundings, over the state `W` of the world. Times are nanoseconds.
pub record Env (W : Type 0) : Type 0 where
  pub clock : W → ℕ  -- time.Now
  pub sleep : ℕ → W → W  -- time.Sleep
  pub idle : ℕ → W → W  -- time.Sleep, of another goroutine
  pub intn : ℕ → W → ℕ × W  -- rand.Intn of a positive bound, and Int31n
  pub float64 : W → ℕ × W  -- rand.Float64, in units of 2^-53
  -- what a call of Invoke meets: the index that is drawn, and the rounds of its loop
  pub attempts : Client → Op → ℕ → Bool → Option Node → W → (ℕ × List Round) × W
  pub busy : W → List ℕ × W  -- the clients that finish an operation while the injector waits
  pub pick : ℕ → W → ℕ × W  -- which of so many goroutines ends first
  pub exec : List String → W → (String × Option String) × W  -- the output, trimmed, and the error
  pub http_get : String → W → Option Bytes × W  -- http.Client.Get
  pub read_file : String → W → Try String Bytes × W
  pub write_file : String → Bytes → W → Option String × W
  pub mkdir_all : String → W → Option String × W
  pub visualize : String → W → Bool × W  -- whether os.Create gives a file to draw into
  pub join : String → String → String  -- filepath.Join
  pub quote : String → String  -- %q
  pub duration_text : ℕ → String  -- %v of a Duration
  pub report_text : Report → Bytes  -- json.MarshalIndent
  pub text : JsonText
  pub porcupine : Porcupine
  pub patience : ℕ  -- the rounds after which a loop on the clock counts as endless

pub record State (W : Type 0) : Type 0 where
  pub runner : Runner
  pub world : W

-- `none`: the run panics or does not come to an end.
abbrev pub Run : Type 0 → Type 0 → Type 0
Run W A = State W → Option (A × State W)

module _ {W A : Type 0} where
  unfoldable pub pure : A → Run W A
  pure a s = some (a, s)

  -- a panic, or a loop without an end
  unfoldable pub stuck : Run W A
  stuck s = none

  abbrev pub or_stuck : Option A → Run W A
  or_stuck none s = none
  or_stuck (some a) s = some (a, s)

  -- a use of the world
  unfoldable pub outside : (W → A × W) → Run W A
  outside f s = let (a, w) = f s.world in some (a, record s { world = w })

  -- a look at the runner
  unfoldable pub asks : (Runner → A) → Run W A
  asks f s = some (f s.runner, s)

module _ {W A B : Type 0} where
  abbrev pub continue : Option (A × State W) → (A → Run W B) → Option (B × State W)
  continue none f = none
  continue (some (a, s)) f = f a s

  infixl 5 ◌>>=◌
  unfoldable pub ◌>>=◌ : Run W A → (A → Run W B) → Run W B
  unfolding pure stuck outside asks
  ◌>>=◌ m f s = continue (m s) f

infixl 5 ◌>>◌
abbrev pub ◌>>◌ : {W B : Type 0} → Run W (Unit {0}) → Run W B → Run W B
m >> k = m >>= λ _. k

module _ {W : Type 0} where
  -- a change of the world alone
  unfoldable pub wait : (W → W) → Run W (Unit {0})
  wait f s = some (tt, record s { world = f s.world })

  unfoldable pub add_event : FaultEvent → Run W (Unit {0})
  add_event ev s =
      some (tt, record s { runner = record s.runner { events = s.runner.events ++ ev ∷ [] } })

  -- runner.check
  unfoldable pub check : String → Bool → String → Run W (Unit {0})
  check name pass detail s =
      let c : CheckResult = record { name = name; pass = pass; detail = detail } in
      let report = record s.runner.report { checks = s.runner.report.checks ++ c ∷ [] } in
      some (tt, record s { runner = record s.runner { report = report } })

-- NewClient; its recorder is the runner's
unfoldable pub new_client : ℤ → List Node → Client
new_client id nodes = record { id = id; nodes = nodes; seq = 0; last_seen = []; recorded = [] }

-- An Op of which a client gives what a request needs.
unfoldable pub request : ℤ → String → String → String → Option String → Op
request client op key value expect = record {
  client = client;
  op = op;
  key = key;
  value = value;
  expect = expect;
  start_ns = pos 0;
  end_ns = pos 0;
  outcome = "";
  ok = false;
  present = false;
  ret_val = "";
  node = "";
}

abbrev pub recording :
    {W : Type 0} → State W → W → Option (Client × Op) → Option ((Client × Op) × State W)
recording s w none = none
recording s w (some (c, op)) =
    some ((c, op), record s { runner = record s.runner { recorded = c.recorded }; world = w })

-- Client.Invoke within the run: the client's recorder is the one that all clients share.
unfoldable pub invoke_op :
    {W : Type 0} → Env W → Client → Op → ℕ → Bool → Option Node → Run W (Client × Op)
unfolding invoke
invoke_op e c op deadline no_proxy pin s =
    let ((start, rounds), w) = e.attempts c op deadline no_proxy pin s.world in
    recording s w (invoke (record c { recorded = s.runner.recorded }) op pin start rounds)

-- nanoseconds in a millisecond and in a second
abbrev pub ms : ℕ
ms = 1000000

abbrev pub second : ℕ
second = 1000000000
