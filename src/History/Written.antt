-- ===== src/History/Written.antt =====
-- A history file that was written and is read.
use quorum_kv.Prelude.{
  String, ◌≡◌, ap, ◌∙◌, true, false, none, List, [], ◌∷◌, ◌==◌, arith, All, ℕ, ◌+◌, ltb, nat_eq,
}
use Prim.Native.Nat.{◌^◌}
use Prim.Native.Char.{code}
use Prim.Native.String.{◌++◌, len}
use mathlib.Core.List.{append-nil, append_assoc}
use mathlib.Core.List.{◌++◌ as ◌++ₗ◌}
use text.Mathlib.TextLemmas.{nil-append, cons-append}
use quorum_kv.Strings.{contains, cut_suffix}
use quorum_kv.Json.{JsonText}
use quorum_kv.Json.Decode.{unmarshal}
use quorum_kv.History.{Op}
use quorum_kv.History.Line.{op_json, op_slots, zero_op, IsInt64, fill-op_json}
use quorum_kv.History.File.{write_file, lines, drop_return, read_lines, read}

newline-append : (s : String) → "\n" ++ s ≡ String.◌∷◌ "\n" s
newline-append s = cons-append "\n" "" s ∙ ap (λ t. String.◌∷◌ "\n" t) (nil-append s)

pub lines-append :
    (p s : String) → contains p b'\n' ≡ false → lines (p ++ ("\n" ++ s)) ≡ p ∷ lines s
unfolding lines contains
lines-append String.[] s h = rw (nil-append ("\n" ++ s), newline-append s)
lines-append (String.◌∷◌ c p) s h =
    let other_ : nat_eq (code c) b'\n' ≡ false = ground arith in
    let plain : contains p b'\n' ≡ false = ground arith in
    rw (cons-append c p ("\n" ++ s), other_, lines-append p s plain)

-- A record whose document is a line of its own: it is not empty, holds no newline, ends in no carriage
-- return, and is shorter than 16 MiB.
pub record IsLine (text : JsonText) (o : Op) : Type 0 where
  pub no_newline : contains (text.print (op_json o)) b'\n' ≡ false
  pub no_return : cut_suffix (text.print (op_json o)) "\r" ≡ none
  pub filled : (text.print (op_json o) == "") ≡ false
  pub short : ltb (len (text.print (op_json o))) (2 ^ 24) ≡ true

module _ (text : JsonText) where
  unmarshal-op :
      (o : Op) → IsInt64 o → unmarshal text op_slots (text.print (op_json o)) zero_op ≡ (o, none)
  unfolding unmarshal
  unmarshal-op o h = rw (text.parse-print (op_json o)) (fill-op_json o h)

  drop_return-op :
      (o : Op) → IsLine text o → drop_return (text.print (op_json o)) ≡ text.print (op_json o)
  unfolding drop_return
  drop_return-op o h = rw h.no_return

  read_lines-written :
      (os : List Op) (line : ℕ) (acc : List Op)
      → All IsInt64 os
      → All (IsLine text) os
      → read_lines text (lines (write_file text os)) line acc ≡ (acc ++ₗ os, none)
  unfolding read_lines write_file
  read_lines-written [] line acc i l = unfold lines in rw append-nil
  read_lines-written (o ∷ os) line acc i l = rw (
    lines-append (text.print (op_json o)) (write_file text os) l.0.no_newline,
    l.0.short,
    drop_return-op o l.0,
    l.0.filled,
    unmarshal-op o i.0,
    drop_return-op o l.0,
    unmarshal-op o i.0,
    read_lines-written os (line + 1) (acc ++ₗ o ∷ []) i.1 l.1,
    append_assoc,
  )

  -- Reading what was written for a history gives that history and no error, if its numbers are int64 and
  -- each of its documents is a line: not empty, without a newline in it or a carriage return at its end,
  -- and shorter than 16 MiB.
  pub read-write_file :
      (os : List Op)
      → All IsInt64 os
      → All (IsLine text) os
      → read text (write_file text os) ≡ (os, none)
  unfolding read
  read-write_file os i l = read_lines-written os 0 [] i l
