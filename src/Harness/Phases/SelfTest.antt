-- ===== src/Harness/Phases/SelfTest.antt =====
-- internal/harness/run.go: phaseCheckerSelfTest.
use quorum_kv.Prelude.{String, false, not, Option, none, some, List, Try, ok, err, ◌*◌}
use quorum_kv.History.{Op}
use quorum_kv.Harness.Runner.{Env, Run, pure, outside, asks, ◌>>=◌, ◌>>◌, check, second}
use Prim.Native.String.{◌++◌}
use quorum_kv.Fmt.{decimal, text_of_bool}
use quorum_kv.Json.{Bytes}
use quorum_kv.Checker.Check
use quorum_kv.History.File.{ReadError, bad_line, too_long, read}

module _ {W : Type 0} (e : Env W) where
  -- the text of the error that Read returns
  abbrev pub read_error_text : ReadError → String
  read_error_text (bad_line n x) = "history line " ++ (decimal n ++ (": " ++ e.text.error_text x))
  read_error_text too_long = "bufio.Scanner: token too long"

  abbrev pub read_result : List Op × Option ReadError → Try String (List Op)
  read_result (ops, none) = ok ops
  read_result (ops, some x) = err (read_error_text x)

  abbrev pub read_opened : Try String Bytes → Try String (List Op)
  read_opened (err m) = err m
  read_opened (ok b) = read_result (read e.text b)

  -- history.ReadFile
  unfoldable pub read_history : String → Run W (Try String (List Op))
  unfolding read decimal
  read_history path = do opened ← outside (e.read_file path); pure (read_opened opened)

  abbrev pub accept_good : Try String (List Op) → Run W (Unit {0})
  accept_good (err m) = check "checker-accepts-known-good" false ("cannot read fixture: " ++ m)
  accept_good (ok good) =
      let accepted = (Check.check e.porcupine good (60 * second)).linearizable in
      check "checker-accepts-known-good" accepted
        ("known-good history accepted=" ++ text_of_bool accepted)

  abbrev pub reject_bad : String → Try String (List Op) → Run W (Unit {0})
  reject_bad dir (err m) = check "checker-rejects-known-bad" false ("cannot read fixture: " ++ m)
  reject_bad dir (ok bad) = do
    let rejected = not (Check.check e.porcupine bad (60 * second)).linearizable
    check "checker-rejects-known-bad" rejected
        ("known-bad history (stale read after acked overwrite) rejected=" ++ text_of_bool rejected)
    good ← read_history (e.join dir "known-good-history.jsonl")
    accept_good good

  unfoldable pub phase_checker_self_test : Run W (Unit {0})
  unfolding read_history check Check.check text_of_bool
  phase_checker_self_test = do
    dir ← asks (λ r. r.options.fixtures_dir)
    bad ← read_history (e.join dir "known-bad-history.jsonl")
    reject_bad dir bad
