-- ===== src/Checker/Describe.antt =====
-- internal/checker/checker.go: DescribeOperation, describeOut and Equal of the model.
use quorum_kv.Prelude.{
  String, ◌≡◌, refl, true, false, Bool, ◌&&◌, ◌||◌, not, Option, none, some, ◌==◌, if◌then◌else◌,
}
use Prim.Native.String.{◌++◌}
use quorum_kv.Fmt.{text_of_bool}
use quorum_kv.Checker.Model.{KvInput, KvOutput, KvState, bool_eq}

-- Model.Equal
abbrev pub equal : KvState → KvState → Bool
equal a b = bool_eq a.present b.present && a.val == b.val

abbrev pub expected_text : Option String → String
expected_text none = "<absent>"
expected_text (some e) = e

module _ (quote : String → String) where
  -- describeOut
  unfoldable pub describe_out : KvOutput → String
  unfolding text_of_bool
  describe_out out =
      if out.unknown
      then "unknown"
      else if not (out.val == "") || out.present
      then "ok="
        ++ text_of_bool out.ok
        ++ " present="
        ++ text_of_bool out.present
        ++ " val="
        ++ quote out.val
      else "ok=" ++ text_of_bool out.ok

  -- Model.DescribeOperation
  unfoldable pub describe_operation : KvInput → KvOutput → String
  unfolding describe_out
  describe_operation in_ out =
      let exp = expected_text in_.expect in
      let said = describe_out out in
      if in_.op == "put"
      then "put(" ++ in_.key ++ ", " ++ in_.val ++ ") -> " ++ said
      else if in_.op == "get"
      then "get(" ++ in_.key ++ ") -> " ++ said
      else if in_.op == "delete"
      then "delete(" ++ in_.key ++ ") -> " ++ said
      else if in_.op == "cas"
      then "cas(" ++ in_.key ++ ", " ++ exp ++ " => " ++ in_.val ++ ") -> " ++ said
      else "?"

cas_text :
    describe_operation
      (λ s. "\"" ++ (s ++ "\""))
      (record { op = "cas"; key = "k"; val = "2"; expect = none })
      (record { unknown = false; ok = false; present = true; val = "1" })
    ≡ "cas(k, <absent> => 2) -> ok=false present=true val=\"1\""
unfolding describe_operation
cas_text = refl
