-- ===== src/System/Asked.antt =====
-- The commands that the handler proposes leave out what their operation does not use; a store answers
-- them as it does the whole operations of the records.
use quorum_kv.Prelude.{none, ◌≡◌, refl, sym, ap, ◌∙◌, some, List, [], ◌∷◌, map}
use quorum_kv.Json.{JsonText}
use quorum_kv.Kv.Command.{Command, Result}
use quorum_kv.Kv.Spec.{Kind, kind_of, next, answer, update, Registers, Request, answers}
use quorum_kv.Kv.Spec.Kind.{put, get, delete, cas}
use quorum_kv.Kv.Fsm.{Fsm, new_fsm, returned}
use quorum_kv.Kv.Fsm.Step.{IsValid, view}
use quorum_kv.Kv.Fsm.Replay.{replay, log_of, replay-Follows}
use quorum_kv.GoMap
use quorum_kv.History.{Op}
use quorum_kv.Checker.Operations.{input_of}
use quorum_kv.Checker.Step.{command_of}
use quorum_kv.Checker.Record.{Committed, requests_of}
use quorum_kv.Checker.Complete.{empty}
use quorum_kv.Contract.Wire.{asked}

pub asked-input : (k : Kind) (o d : Op) → input_of d ≡ input_of o → asked k d ≡ asked k o
asked-input put o d h = ap (λ i. record { op = "put"; key = i.key; value = i.val; expect = none }) h
asked-input get o d h = ap (λ i. record { op = "get"; key = i.key; value = ""; expect = none }) h
asked-input delete o d h =
    ap (λ i. record { op = "delete"; key = i.key; value = ""; expect = none }) h
asked-input cas o d h =
    ap (λ i. record { op = "cas"; key = i.key; value = i.val; expect = i.expect }) h

pub asked-kind : (k : Kind) (o : Op) → kind_of (asked k o).op ≡ some k
asked-kind put o = refl
asked-kind get o = refl
asked-kind delete o = refl
asked-kind cas o = refl

abbrev pub asked_request : Committed → Request
asked_request c = record {
  command = asked c.kind c.op;
  kind = c.kind;
  known = asked-kind c.kind c.op;
}

-- What a store answers to the command, with its next registers.
abbrev served : Registers → Kind → Command → Result × Registers
served s k c = (answer k c (s c.key), update s c.key (next k c (s c.key)))

served-asked :
    (s : Registers) (k : Kind) (o : Op)
    → served s k (asked k o) ≡ served s k (command_of (input_of o))
served-asked s put o = refl
served-asked s get o = refl
served-asked s delete o = refl
served-asked s cas o = refl

answers-asked :
    (s : Registers) (cs : List Committed)
    → answers s (map asked_request cs) ≡ answers s (requests_of cs)
answers-asked s [] = refl
answers-asked s (c ∷ cs) =
    ap (λ x. x.0 ∷ answers x.1 (map asked_request cs)) (served-asked s c.kind c.op)
    ∙ ap (λ rs. answer c.kind (command_of (input_of c.op)) (s c.op.key) ∷ rs)
        (answers-asked (update s c.op.key (next c.kind (command_of (input_of c.op)) (s c.op.key)))
          cs)

pub new_fsm-IsValid : IsValid new_fsm
new_fsm-IsValid = record { allocated = refl; unique = tt }

from_start :
    (text : JsonText) (qs : List Request)
    → (last : Fsm) × (replay text new_fsm (log_of text qs) ≡ returned (last, answers empty qs))
from_start text qs =
    let f =
      replay-Follows text new_fsm empty qs new_fsm-IsValid (unfold view GoMap.get in λ k. refl) in
    (f.last, f.runs)

-- If the log of the proposed commands has these results, so has that of the recorded operations.
pub replay-asked :
    (text : JsonText) (cs : List Committed) (last : Fsm) (rs : List Result)
    → replay text new_fsm (log_of text (map asked_request cs)) ≡ returned (last, rs)
    → (end : Fsm) × (replay text new_fsm (log_of text (requests_of cs)) ≡ returned (end, rs))
replay-asked text cs last rs h =
    let (f, a) = from_start text (map asked_request cs) in
    let (g, b) = from_start text (requests_of cs) in
    let same : answers empty (map asked_request cs) ≡ rs = cc in
    (g, b ∙ ap (λ x. returned (g, x)) (sym (answers-asked empty cs) ∙ same))
