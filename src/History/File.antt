-- ===== src/History/File.antt =====
-- internal/history/history.go: WriteFile and Read, on the bytes of the file.
use quorum_kv.Prelude.{
  String, not, Option, none, some, List, [], ◌∷◌, ◌==◌, if◌then◌else◌, ℕ, ◌+◌, ltb, nat_eq,
}
use Prim.Native.Nat.{◌^◌}
use Prim.Native.Char.{code}
use Prim.Native.String.{◌++◌, len}
use mathlib.Core.List.{◌++◌ as ◌++ₗ◌}
use quorum_kv.Strings.{grow_first, cut_suffix}
use quorum_kv.Json.{JsonError, JsonText, Bytes}
use quorum_kv.Json.Decode.{unmarshal}
use quorum_kv.History.{Op}
use quorum_kv.History.Line.{op_json, op_slots, zero_op}

-- WriteFile: what it writes
unfoldable pub write_file : JsonText → List Op → Bytes
write_file text [] = ""
write_file text (o ∷ os) = text.print (op_json o) ++ ("\n" ++ write_file text os)

-- bufio.ScanLines, before it takes a carriage return off: what stands before each newline, and what
-- follows the last one if it is not empty.
unfoldable pub lines : String → List String
lines String.[] = []
lines (String.◌∷◌ c s) =
    let rest = lines s in if nat_eq (code c) b'\n' then String.[] ∷ rest else grow_first c rest

abbrev or_whole : String → Option String → String
or_whole s none = s
or_whole s (some t) = t

unfoldable pub drop_return : String → String
unfolding cut_suffix
drop_return s = or_whole s (cut_suffix s "\r")

-- A line that is no document of a record, with its number, or one that the scanner's buffer of 16 MiB
-- cannot hold with its end.
pub data ReadError : Type 0 where
  bad_line : ℕ → JsonError → ReadError
  too_long : ReadError

module _ (text : JsonText) where
  -- the loop of Read
  unfoldable pub read_lines : List String → ℕ → List Op → List Op × Option ReadError
  unfolding unmarshal drop_return
  read_lines [] line ops = (ops, none)
  read_lines (l ∷ ls) line ops =
      let skip = read_lines ls (line + 1) ops in
      let token = drop_return l in
      if not (ltb (len l) (2 ^ 24))
      then (ops, some too_long)
      else if token == ""
      then skip
      else elim (unmarshal text op_slots token zero_op).1 [
        | none ↦ read_lines ls (line + 1) (ops ++ₗ (unmarshal text op_slots token zero_op).0 ∷ [])
        | some e ↦ ([], some (bad_line (line + 1) e))
      ]

  -- Read
  unfoldable pub read : Bytes → List Op × Option ReadError
  unfolding read_lines lines
  read b = read_lines (lines b) 0 []
