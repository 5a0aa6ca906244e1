-- ===== src/System/Served.antt =====
-- What a client and a node that leads do in an attempt are steps of the system.
use quorum_kv.Prelude.{
  ◌++◌, Bool, String, ◌≡◌, refl, sym, ap, ◌∙◌, false, true, none, some, Option, List, [], ◌∷◌, map,
  ◌==◌, ok, ◌^◌, arith,
}
use mathlib.Core.Path.{subst, subst⁻¹}
use Prim.Native.String.{slice}
use quorum_kv.Prelude.Int.{pos}
use quorum_kv.Json.{JsonText}
use quorum_kv.Kv.Command.{Result, encode}
use quorum_kv.Kv.Spec.{answer, Request}
use quorum_kv.Kv.Fsm.{Fsm, new_fsm, returned, apply}
use quorum_kv.Kv.Fsm.Step.{IsValid, view}
use quorum_kv.Kv.Fsm.Replay.{log_of, replay-Follows}
use quorum_kv.GoMap
use quorum_kv.Checker.Complete.{empty}
use quorum_kv.History.{Op, outcome_ok}
use quorum_kv.Strings.{contains}
use quorum_kv.Server.Http.{Forward, Node, result_json}
use quorum_kv.Harness.Client.{AttemptResult, answered, classify, build_request, HttpRequest}
use quorum_kv.Harness.Nodes as Peers
use quorum_kv.Harness.Invoke.{Client, Round, Turn, finished, turn}
use quorum_kv.Harness.Invoke.Attempts.{Finishes, finishes, turn-Finishes, is_last}
use quorum_kv.Contract.Bodies.{classify-result}
use quorum_kv.Contract.Wire.{sent_body}
use quorum_kv.Contract.Attempt.{Leads, Succeeds, attempt-Succeeds}
use quorum_kv.System.{
  System, Call, Entry, Reach, Step, Attempted, Answered, command, applied, closed,
}
use quorum_kv.System.Places.{Removes, Replaces-behind}
use quorum_kv.System.Asked.{asked-kind, new_fsm-IsValid}
use quorum_kv.System.Invariant.{Sound, bytes_of}
use quorum_kv.System.Kept.{reach-Sound}
use quorum_kv.System.Records.{sharing, Attempted-Recording, outcome_of-ok}
use quorum_kv.Contract.Attempt.{success}
use quorum_kv.Contract.Paths.{is_plain, ReadsPlain}
use quorum_kv.Checker.Operations.{input_of}

-- The steps from one state of the system to another.
pub data Steps (text : JsonText) (s : System) : System → Type 0 where
  stay : Steps text s s
  then : {t u : System} → Steps text s t → Step text t u → Steps text s u

abbrev request_of : Entry → Request
request_of e = record {
  command = command e.call;
  kind = e.call.kind;
  known = asked-kind e.call.kind e.call.op;
}

log_of-entries :
    (text : JsonText) (l : List Entry) → log_of text (map request_of l) ≡ map (bytes_of text) l
log_of-entries text [] = refl
log_of-entries text (e ∷ l) = ap (λ bs. bytes_of text e ∷ bs) (log_of-entries text l)

-- The state machine of a system that is reached is valid.
Sound-IsValid : (text : JsonText) (s : System) → Sound text s → IsValid s.fsm
Sound-IsValid text s h =
    let f =
      replay-Follows text new_fsm empty (map request_of s.log) new_fsm-IsValid
        (unfold view GoMap.get in λ k. refl) in
    let e = log_of-entries text s.log in
    let runs = f.runs in
    let same : f.last ≡ s.fsm = cc (h.replayed, e, runs) in subst IsValid same f.valid

Finishes-some :
    (c : Client) (op : Op) (node : Peers.Node) (r : Round) (t : Turn)
    → Finishes c op node r t
    → (c' : Client) × (done : Op) × (t ≡ finished c' done)
Finishes-some c op node r _ (finishes c' done e) = (c', done, refl)

is_last-ok : (r : Round) → r.result.class ≡ "ok" → is_last r ≡ true
is_last-ok r h = rw h

-- An attempt that is sent, committed and answered at one time: the recorder holds its record, which
-- says what was asked and what was answered.
pub record CarriedOut (text : JsonText) (s : System) (call : Call) (fsm : Fsm) (r : Result)
    : Type 0 where
  pub done : Op
  pub acknowledged : done.outcome ≡ outcome_ok
  pub input : input_of done ≡ input_of call.op
  pub ok : done.ok ≡ r.ok
  pub present : done.present ≡ r.present
  pub ret_val : done.ret_val ≡ r.value
  pub steps :
      Steps text s (record s {
        fsm = fsm;
        log = applied s call r (some done);
        history = s.history ++ done ∷ [];
      })

abbrev answer_round : System → AttemptResult → Round
answer_round s x = record { start_ns = pos s.now; end_ns = pos s.now; result = x; late = false }

CarriedOut-Answered :
    (text : JsonText) (s : System) (call : Call) (fsm : Fsm) (r : Result) (x : AttemptResult)
    → call.start ≡ s.now
    → apply text s.fsm (encode text (command call)) ≡ returned (fsm, r)
    → Answered text s.now r (answer_round s x)
    → x ≡ success r
    → CarriedOut text s call fsm r
CarriedOut-Answered text s call fsm r x now runs reply q =
    let round = answer_round s x in
    let k : x.class ≡ "ok" = ap (λ a. a.class) q in
    let c = sharing s call in
    let (c', done, ends) =
      Finishes-some c call.op call.node round (turn c call.op call.pin call.node round)
        (turn-Finishes c call.op call.pin call.node round (is_last-ok round k)) in
    let e : Entry = record { call = call; time = s.now; result = r; closing = none } in
    let sent : System = record s { waiting = call ∷ s.waiting } in
    let committed : System = record s { fsm = fsm; log = applied s call r none } in
    let heard : Attempted committed call round (finished c' done) = record {
      began = ap pos (sym now);
      ended = omega arith;
      turned = ends;
    } in
    let rec = Attempted-Recording committed call round c' done heard in
    record {
      done = done;
      acknowledged = rec.outcome ∙ outcome_of-ok round k;
      input = rec.input;
      ok = rec.ok k ∙ ap (λ a. a.ok) q;
      present = rec.present k ∙ ap (λ a. a.present) q;
      ret_val = rec.ret_val k ∙ ap (λ a. a.val) q;
      steps =
          subst
            (λ h.
              Steps text s
                (record s { fsm = fsm; log = applied s call r (some done); history = h }))
            rec.recorded
            (Steps.then {t = committed}
              (Steps.then {t = sent} (Steps.then Steps.stay (Step.send call now))
                (Step.commit call s.waiting fsm r (Removes.here s.waiting) runs))
              (Step.answer e (applied s call r (some done)) round c' done refl
                (Replaces-behind e (closed e done) s.log []) reply heard));
    }

module _ {W : Type 0} (text : JsonText) (url_path : String → Option String) (forward : Forward W)
    (parses_url : String → Bool) (n : Node W) (store : W → Fsm) where
  -- The attempt of the call at the node, and its steps.
  pub record Attempt (s : System) (call : Call) (w : W) (request : Option HttpRequest)
      : Type 0 where
    pub exchange :
        Succeeds text url_path forward parses_url n store call.kind call.node call.op w request
    pub carried :
        CarriedOut text s call
          (store exchange.after)
          (answer call.kind (command call) (view (store w) call.op.key))

  -- In a system that is reached, a call that begins now, on a key of unreserved characters that is not
  -- empty, which net/url reads as it is under the node's address, with a request and an answer within
  -- 1 MiB: if its client sends the request to a node that leads and whose store is that of the system,
  -- the handler answers with the specification's answer, and the system has steps to the state in which
  -- the store is the node's, the command is the last entry of the log, and the recorder holds, behind
  -- what it held before, the call's record, acknowledged, with the input that was asked and the answer.
  pub Attempt-Steps :
      (s : System) (call : Call) (no_proxy : Bool) (w : W)
      → ReadsPlain url_path call.node.url
      → Leads text url_path forward parses_url n store
      → Reach text s
      → store w ≡ s.fsm
      → call.start ≡ s.now
      → (call.op.key == "") ≡ false
      → is_plain call.op.key ≡ true
      → contains call.op.key b'/' ≡ false
      → slice (sent_body text call.kind call.op) 0 (2 ^ 20) ≡ sent_body text call.kind call.op
      → slice
          (text.print (result_json (answer call.kind (command call) (view (store w) call.op.key))))
          0
          (2 ^ 20)
        ≡ text.print (result_json (answer call.kind (command call) (view (store w) call.op.key)))
      → Attempt s call w (build_request text url_path call.node call.op no_proxy)
  Attempt-Steps s call no_proxy w reads leads reached same now filled plain flat short whole =
      let r = answer call.kind (command call) (view (store w) call.op.key) in
      let x =
        attempt-Succeeds text url_path forward parses_url n store call.kind call.node call.op
          no_proxy w reads leads
          (subst⁻¹ IsValid same (Sound-IsValid text s (reach-Sound text s reached))) call.known
          filled plain flat short whole in
      record {
        exchange = x;
        carried =
            CarriedOut-Answered text s call (store x.after) r
              (classify text (answered x.response.status (ok x.response.body))) now
              (subst (λ f. apply text f (encode text (command call)) ≡ returned (store x.after, r))
                same x.applied)
              (record {
                later = omega arith;
                whole = whole;
                result = x.read ∙ sym (classify-result text r whole);
              })
              x.read;
      }
