-- ===== src/History/Tests.antt =====
-- A history file of two records.
use quorum_kv.Prelude.{◌≡◌, refl, true, false, none, some, [], ◌∷◌, arith}
use quorum_kv.Prelude.Int.{pos}
use quorum_kv.Strings.{contains, cut_suffix}
use quorum_kv.Json.Postfix
use quorum_kv.Json.Postfix.{postfix}
use quorum_kv.History.{Op}
use quorum_kv.History.Line.{IsInt64}
use quorum_kv.History.File.{write_file, read}
use quorum_kv.History.Written.{IsLine, read-write_file}

abbrev put_a : Op
put_a = record {
  client = pos 1;
  op = "put";
  key = "a";
  value = "1";
  expect = none;
  start_ns = pos 2;
  end_ns = pos 3;
  outcome = "ok";
  ok = true;
  present = false;
  ret_val = "";
  node = "n1";
}

abbrev cas_a : Op
cas_a = record put_a { op = "cas"; value = "2"; expect = some "1"; outcome = "unknown"; ok = false }

put_a-IsInt64 : IsInt64 put_a
put_a-IsInt64 = record { client = omega arith; start_ns = omega arith; end_ns = omega arith }

cas_a-IsInt64 : IsInt64 cas_a
cas_a-IsInt64 = record { client = omega arith; start_ns = omega arith; end_ns = omega arith }

put_a-IsLine : IsLine postfix put_a
unfolding Postfix.print contains cut_suffix
put_a-IsLine = record { no_newline = refl; no_return = refl; filled = refl; short = refl }

cas_a-IsLine : IsLine postfix cas_a
unfolding Postfix.print contains cut_suffix
cas_a-IsLine = record { no_newline = refl; no_return = refl; filled = refl; short = refl }

read-write_file_example :
    read postfix (write_file postfix (put_a ∷ cas_a ∷ [])) ≡ (put_a ∷ cas_a ∷ [], none)
read-write_file_example =
    read-write_file postfix (put_a ∷ cas_a ∷ []) (put_a-IsInt64, (cas_a-IsInt64, tt))
      (put_a-IsLine, (cas_a-IsLine, tt))
