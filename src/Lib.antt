-- ===== src/Lib.antt =====
-- quorum-kv: a replicated key-value store over Raft, and a harness that injects faults, records
-- what clients saw and checks the record for linearizability.
--
-- The parts, and how they meet. A client (internal/harness/client.go) sends an operation to a
-- node and classifies the answer; the node's handler (internal/server/http.go) proposes a command
-- to Raft, or proxies the request to the leader, whose URL it finds among its peers
-- (internal/server/node.go). Raft hands each committed command to the state machine
-- (internal/kv/fsm.go, commands in internal/kv/command.go), which also writes and reads
-- snapshots. The client's records (internal/history/history.go) go to the checker
-- (internal/checker/checker.go), which turns them into operations and asks Porcupine whether they
-- are linearizable under its model of the store. A run of the harness (internal/harness/run.go)
-- is a sequence of phases: it sends operations, kills and cuts off nodes
-- (internal/harness/faults.go), adds a named check per phase, and has the checker judge the
-- record of the whole run; cmd/harness turns the report into an exit status.
--
-- The files.
-- - Prelude and its children: shared names, Boolean tests, results, lists over the native
--   numbers, and int64 timestamps, whose successor wraps around.
-- - GoMap: Go's maps, nil or with entries in an order of their own; Laws and Order have their
--   lemmas.
-- - Json, Json/Decode: documents and encoding/json's rules for filling structs. Json/Postfix is a
--   spelling of documents that the examples use.
-- - Kv/Command, Kv/Fsm: Encode, DecodeCommand, Apply (execute is its switch), Dump, Snapshot,
--   Persist, Restore. Kv/Spec is the abstract store, a function of the key; Kv/Fsm/* relate the
--   two.
-- - History: the record Op and its outcomes. History/Line: its JSON. History/File: WriteFile and
--   Read.
-- - Checker/Model: Init, Step, Partition. Checker/Operations: ToOperations. Checker/Check: Check.
--   Checker/Linearizable says what Porcupine decides; the other files carry a real execution of
--   the store to a linearization of what ToOperations makes of its records, and back. Step looks at
--   what a get saw and whether a cas won, and takes a put or a delete whatever it reported; so does
--   what is concluded from a verdict (allows in Checker/Step).
-- - Strings, Specs: Go's strings functions, and the reader of specifications that ParsePeers and
--   ParseNodes have in common.
-- - Server/Node: ParsePeers, Config, LeaderHTTPURL. Server/Http: the handler of /kv/ (handle_kv),
--   apply (answer_proposal is its switch), proxyOrReject, writeJSON, writeErr. Server/Status: the
--   handlers of /internal/state and /healthz. Server/Node/Leader is on LeaderHTTPURL.
-- - Harness/Nodes: ParseNodes. Harness/Client: doAttempt, before (build_request) and after
--   (classify) the exchange, isDefinitelyNotSent. Harness/Invoke: Invoke, noteSeen, the recorder;
--   Attempts, Ends, Records, Available and Seen are on these.
-- - Fmt: the verbs of fmt that make keys and values. Harness/Runner: the report, the runner and
--   the actions of a run; Runner/Rules has a rule for each way to build one. Harness/Faults: the
--   injector. Harness/Workload: RandomOp. Harness/Phases/*: one file for each phase. Harness/Run:
--   Run, finish, the end of main.
-- - Harness/Run/Log is the fault log as a state machine, and Harness/Run/Recorded says what
--   Invoke leaves in the recorder. Harness/Run/Good is the invariant of a run, and Invoked what a call
--   keeps of it; Resets and Cleared are on the records of the reset, Members, Quiet,
--   Rounds, Faulty, Durable, Isolated and Shaken are on how the phases keep it, Verdict and Ended
--   on the run as a whole, and Outcome is on what it leaves behind; Broken is on a checker that
--   fails its self-test, Harness/Phases/Convergence/Same on states that are found identical, and
--   Harness/Faults/Undone and Healed on the commands of the injector. Runner/Total and Runner/Steady are on
--   actions that end; Brief, Timed, Patient and Chaotic are on the phases' end, and Finishes on
--   that of a run. Harness/Run/World is a small world, and Harness/Run/Tests has whole runs in
--   it; Standalone is on the harness with -check.
-- - Harness/Main: the flags of cmd/harness and its main; Main/Ends is on how it ends.
-- - Server/Start: NewNode with its timing constants, and env and main of cmd/server; Start/Started,
--   Start/Recovers and Start/Ends are on how they end. Checker/Describe: DescribeOperation, describeOut,
--   Equal.
-- - System: the parts together, as steps: calls are sent, committed by Raft in the order of its
--   log, answered, lost, given up and repeated, over a clock. A step uses the body of Invoke's
--   loop (turn), the handler's response as the client reads it (write_json, classify) and Apply.
--   Places, Lists and Shuffles are on the lists of a state, Invariant says what holds of it,
--   Records, Steady and Kept that each step keeps this, Asked and Accepted what the checker then
--   says, and Served that an attempt at a node that leads is steps of it.
-- - Contract: what the client's classification and the handler say of each other: Definite,
--   Unapplied, Guard and Cluster on failures and the log, Wire, Bodies and Status on what each side
--   reads of the other, Attempt on a whole attempt at a node that leads. Paths says which keys a URL
--   carries as they are.
--
-- Parameters. JsonText is how documents are spelled in bytes: what Marshal prints, what Unmarshal
-- reads of a whole text (parse), and what a Decoder reads of a stream's first value (first); it is
-- used with the laws that what is printed is read back. What net/url reads of a URL's text is the
-- function url_path of build_request: the decoded path, without query and fragment, or nothing, on
-- which the client panics. The client puts a key into the URL unescaped, so what is said of a
-- request that reaches the handler is for keys of letters, digits, '-', '_' and '~' (is_plain, which
-- also lets a '/' stand between such segments), and ReadsPlain says that net/url leaves those as
-- they are. Porcupine is a function from operations and a time to Ok, Illegal or Unknown, with laws
-- that say what the first two mean (Checker/Check). The libraries of a
-- server's start (Libraries) are functions over a state of the machine; the state machine that
-- NewNode allocates is a pointer into that state, since Raft is given the pointer and restores its
-- snapshot into what it points to. Raft, the reverse proxy
-- and url.Parse are functions over a state of the cluster that the handlers pass on. Env is what
-- a run has around it: the clock and sleeping, random numbers, the rounds of each call of Invoke,
-- docker, HTTP, files, and the spelling of the report; that a run comes to an end is said of a
-- lawful one (Runner/Total), whose clock does not go back, and nothing else assumes a law of it.
-- Docker (Harness/Faults/Healed) says what docker start and iptables -F do.
-- Leads (Contract/Attempt) says what Raft does at a node that leads, and HasState
-- (Server/Start/Recovers) what it says to a bootstrap where there is a state. The order in which
-- a range meets a map's keys is the order of the entries, which the lemmas leave open.
--
-- Choices. Bytes are valid UTF-8 texts. The newline that an Encoder writes and white space around
-- a document are left out, and so is the path cleaning of ServeMux. A panic is an outcome of its
-- own for the state machine. Invoke takes the world's part, the clock and each attempt's result,
-- as a list of rounds; it gives none if the list ends before the loop does. A run gives none if
-- it panics or does not end: the loops that wait for the clock (read_back, write_loop, read_loop,
-- chaos_loop, converge_loop) count down Env's patience. Each round of theirs sleeps for at least
-- half a second, so half a second for each round of the patience has to make more than their
-- deadlines, which are at most 90 seconds or the length of the chaos phase. Goroutines share the
-- recorder alone, which each changes once per operation under its lock, so a run takes them one
-- operation after the other in an order that the world picks: contend for the six contenders of a
-- round, and sleeping for the clients that work while the injector waits. The numbers of clients
-- and keys are not negative. No other definition has a bound: loops are recursion on lists and
-- texts. The scanner of Read has a buffer of 16 MiB, and the handler and the client read at most
-- 1 MiB of a body, as in the source.
--
-- The system of System takes from Raft that there is one log, that a proposal is committed at
-- most once, and that one whose attempt failed definitely is not committed, of which Contract
-- says why the handler and the client keep to it; a call may be committed after its client has
-- given it up. Each step is one change of the state, and the clock stays below the largest int64.
--
-- Not modelled: the inside of hashicorp/raft and boltdb, ServeMux, the content of the violation
-- picture, what is printed and logged, flag.Parse, the test file, and the scripts.
pub mod Prelude
pub mod GoMap
pub mod Json
pub mod Kv
pub mod History
pub mod Checker
pub mod Strings
pub mod Fmt
pub mod Specs
pub mod Server
pub mod System
pub mod Harness
pub mod Contract
