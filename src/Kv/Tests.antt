-- ===== src/Kv/Tests.antt =====
-- The statements about the store at concrete inputs, and runs of its code.
use quorum_kv.Prelude.{◌≡◌, refl, true, false, none, some, List, [], ◌∷◌, eq_iff, arith}
use quorum_kv.GoMap.{made, lookup, get}
use quorum_kv.Json.Postfix
use quorum_kv.Json.{Json}
use quorum_kv.Json.Postfix.{postfix}
use quorum_kv.Kv.Command.{Command, encode, op_put, op_cas, decode_command}
use quorum_kv.Kv.Spec.{Request, Kind}
use quorum_kv.Kv.Fsm.{dump, Fsm, new_fsm, returned, apply, execute}
use quorum_kv.Kv.Fsm.Step.{view, IsValid, Step, apply-Step}
use quorum_kv.Kv.Fsm.Replay.{replay, log_of, Follows, replay-Follows}
use quorum_kv.Kv.Fsm.Recovery.{SameFuture, recovered_node, dump-Enumerates, SameView}
use quorum_kv.Kv.Fsm.Contention.{OneWinner, contenders, single_winner}
use quorum_kv.Kv.Fsm.Panics.{panics, unfit, apply-panics, restore_null}
use quorum_kv.Kv.Fsm.{restore, persist, snapshot}

abbrev put_a : Command
put_a = record { op = op_put; key = "a"; value = "1"; expect = none }

abbrev cas_a : Command
cas_a = record { op = op_cas; key = "a"; value = "2"; expect = some "1" }

abbrev bad_op : Command
bad_op = record { op = "touch"; key = "a"; value = ""; expect = none }

abbrev two : Fsm
two = record { contents = made (("a", "1") ∷ ("b", "2") ∷ []) }

two-IsValid : IsValid two
unfolding lookup
two-IsValid = record { allocated = refl; unique = (refl, (refl, tt)) }

abbrev script : List Request
script =
    record { command = put_a; kind = Kind.put; known = refl }
    ∷ record { command = cas_a; kind = Kind.cas; known = refl }
    ∷ []

apply_cas :
    apply postfix two (encode postfix cas_a)
    ≡ returned (
      record { contents = made (("a", "2") ∷ ("b", "2") ∷ []) },
      record { ok = true; present = false; value = "" },
    )
unfolding apply encode Postfix.parse Postfix.print
apply_cas = refl

apply-Step_example : Step Kind.cas cas_a two (apply postfix two (encode postfix cas_a))
apply-Step_example = apply-Step postfix Kind.cas cas_a two refl two-IsValid

replay-Follows_example : Follows (view two) script (replay postfix two (log_of postfix script))
replay-Follows_example = replay-Follows postfix two (view two) script two-IsValid (λ k. refl)

recovered_node_example :
    SameFuture two (restore postfix new_fsm (persist postfix (snapshot two))).0 postfix script
recovered_node_example = recovered_node postfix two new_fsm script two-IsValid

abbrev turned_round : Fsm
turned_round = record { contents = made (("b", "2") ∷ ("a", "1") ∷ []) }

dump-Enumerates_example :
    IsValid (record { contents = dump turned_round })
    × SameView (record { contents = dump turned_round }) two
unfolding lookup view get
dump-Enumerates_example = dump-Enumerates (("b", "2") ∷ ("a", "1") ∷ []) two (record {
  unique = (refl, (refl, tt));
  same = λ k. ground (arith, eq_iff "a" k, eq_iff "b" k, eq_iff "a" "b");
})

single_winner_example :
    OneWinner "a" "x" (replay postfix two (log_of postfix (contenders "a" "1" ("x" ∷ "y" ∷ []))))
unfolding view get lookup
single_winner_example =
    single_winner postfix two "a" "1" "x" ("y" ∷ []) two-IsValid refl
      (ground (arith, eq_iff "x" "1"))

apply-panics_example :
    panics (apply postfix two (encode postfix bad_op))
    ≡ unfit (decode_command postfix (encode postfix bad_op))
apply-panics_example = apply-panics postfix two (encode postfix bad_op) two-IsValid

restore_null_example :
    ((restore postfix two (postfix.print Json.null)).1 ≡ none)
    × (panics (execute put_a (restore postfix two (postfix.print Json.null)).0) ≡ true)
restore_null_example = restore_null postfix two Kind.put put_a refl
