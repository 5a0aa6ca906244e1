-- ===== src/Contract/Attempt.antt =====
-- One attempt from end to end: what a client sends to a node that leads, what the node proposes and the
-- store does, and what the client reads of the answer.
use quorum_kv.Prelude.{
  true, String, ◌≡◌, refl, ap, ◌∙◌, Bool, false, Option, some, ◌==◌, if◌then◌else◌, ok,
}
use mathlib.Core.Path.{sym, subst, subst⁻¹}
use Prim.Native.Nat.{◌^◌}
use Prim.Native.String.{slice, ◌++◌}
use quorum_kv.Json.{JsonText, Bytes}
use quorum_kv.Kv.Command.{Result, encode}
use quorum_kv.Kv.Spec.{Kind, kind_of, next, answer}
use quorum_kv.Kv.Spec.Kind.{put, get, delete, cas}
use quorum_kv.Kv.Fsm as Store
use quorum_kv.Kv.Fsm.{Fsm, returned}
use quorum_kv.Kv.Fsm.Step.{view, IsValid, Step, apply-Step}
use quorum_kv.History.{Op}
use quorum_kv.Strings.{contains}
use quorum_kv.Server.Http.{
  Forward, Node, Response, handle_kv, apply, answer_proposal, responded, result_json, write_json,
}
use quorum_kv.Harness.Nodes as Client
use quorum_kv.Harness.Client.{HttpRequest, AttemptResult, build_request, answered, classify}
use quorum_kv.Contract.Bodies.{classify-result}
use quorum_kv.Contract.Paths.{is_plain, ReadsPlain}
use quorum_kv.Contract.Wire.{
  sent_body, sent_path, asked, received, Proposes, proposes, build_request-Proposes,
}

asked-key : (k : Kind) (o : Op) → (asked k o).key ≡ o.key
asked-key put o = refl
asked-key get o = refl
asked-key delete o = refl
asked-key cas o = refl

asked-known : (k : Kind) (o : Op) → kind_of (asked k o).op ≡ some k
asked-known put o = refl
asked-known get o = refl
asked-known delete o = refl
asked-known cas o = refl

-- The success that tells a client of a result.
abbrev pub success : Result → AttemptResult
success r = record { class = "ok"; ok = r.ok; present = r.present; val = r.value }

module _ {W : Type 0} (text : JsonText) (url_path : String → Option String) (forward : Forward W)
    (parses_url : String → Bool) (n : Node W) (store : W → Fsm) where
  -- Raft commits a proposal and gives back what the state machine answers.
  pub record Commits (b : Bytes) (w : W) (f : Fsm) (r : Result) : Type 0 where
    pub after : W
    pub replied : n.raft.propose b w ≡ (responded (some r), after)
    pub holds : store after ≡ f

  -- The node leads, with a majority: every proposal that the state machine answers is committed.
  abbrev pub Leads : Type 0
  Leads =
      (b : Bytes) (w : W) (f : Fsm) (r : Result)
      → Store.apply text (store w) b ≡ returned (f, r)
      → Commits b w f r

  -- The request was built for its path under the node's address; the state machine carried the command
  -- out with the specification's answer; the handler answered the request, and what the
  -- client reads of the response is the specification's answer at the register of the key, which alone
  -- has changed, to the specification's next register.
  pub record Succeeds (k : Kind) (node : Client.Node) (o : Op) (w : W) (built : Option HttpRequest)
      : Type 0 where
    pub request : HttpRequest
    pub sent : built ≡ some request
    pub url : request.url ≡ node.url ++ sent_path k o
    pub response : Response
    pub after : W
    pub handled : handle_kv text forward parses_url n (received request) w ≡ (response, after)
    pub applied :
        Store.apply text (store w) (encode text (asked k o))
        ≡ returned (store after, answer k (asked k o) (view (store w) o.key))
    pub read :
        classify text (answered response.status (ok response.body))
        ≡ success (answer k (asked k o) (view (store w) o.key))
    pub moved :
        (j : String)
        → view (store after) j
          ≡ (if o.key == j then next k (asked k o) (view (store w) o.key) else view (store w) j)
    pub valid : IsValid (store after)

  Succeeds-step :
      (k : Kind) (node : Client.Node) (o : Op) (w : W) (q : HttpRequest)
      → q.url ≡ node.url ++ sent_path k o
      → handle_kv text forward parses_url n (received q) w
        ≡ apply text forward parses_url n (received q) (asked k o) w
      → (step : Step k (asked k o) (store w) (Store.apply text (store w) (encode text (asked k o))))
      → Commits (encode text (asked k o)) w step.after step.reply
      → slice (text.print (result_json (answer k (asked k o) (view (store w) o.key)))) 0 (2 ^ 20)
        ≡ text.print (result_json (answer k (asked k o) (view (store w) o.key)))
      → Succeeds k node o w (some q)
  unfolding apply
  Succeeds-step k node o w q url proposed step c whole =
      let key = asked-key k o in
      let said : step.reply ≡ answer k (asked k o) (view (store w) o.key) =
        step.refines.answered ∙ ap (λ x. answer k (asked k o) (view (store w) x)) key in
      record {
        request = q;
        sent = refl;
        url = url;
        response = write_json text 200 (result_json step.reply);
        after = c.after;
        handled = proposed ∙ ap (answer_proposal text forward parses_url n (received q)) c.replied;
        applied =
            step.runs
            ∙ ap (λ f. returned (f, step.reply)) (sym c.holds)
            ∙ ap (λ r. returned (store c.after, r)) said;
        read = rw said (classify-result text (answer k (asked k o) (view (store w) o.key)) whole);
        moved =
            subst⁻¹
              (λ f.
                (j : String)
                → view f j ≡ (
                    if o.key == j
                    then next k (asked k o) (view (store w) o.key)
                    else view (store w) j))
              c.holds
              (subst
                (λ x.
                  (j : String)
                  → view step.after j
                    ≡ (if x == j then next k (asked k o) (view (store w) x) else view (store w) j))
                key step.refines.moved);
        valid = subst⁻¹ IsValid c.holds step.refines.valid;
      }

  Succeeds-Proposes :
      (k : Kind) (node : Client.Node) (o : Op) (w : W) (x : Option HttpRequest)
      → Leads
      → IsValid (store w)
      → slice (text.print (result_json (answer k (asked k o) (view (store w) o.key)))) 0 (2 ^ 20)
        ≡ text.print (result_json (answer k (asked k o) (view (store w) o.key)))
      → Proposes text url_path forward parses_url n node (sent_path k o) (asked k o) w x
      → Succeeds k node o w x
  Succeeds-Proposes k node o w _ leads v whole (proposes q url h) =
      let step = apply-Step text k (asked k o) (store w) (asked-known k o) v in
      Succeeds-step k node o w q url h step
        (leads (encode text (asked k o)) w step.after step.reply step.runs) whole

  -- An operation of a known kind, on a key of unreserved characters that is not empty and that net/url
  -- reads as it is under the node's address, that a client sends to a node
  -- that leads, over a valid store, with a request and an answer within 1 MiB: a request is built, the
  -- handler answers it, the client reads a success with the specification's answer, and the store has
  -- moved to the specification's next register at the key and at no other.
  pub attempt-Succeeds :
      (k : Kind) (node : Client.Node) (o : Op) (no_proxy : Bool) (w : W)
      → ReadsPlain url_path node.url
      → Leads
      → IsValid (store w)
      → kind_of o.op ≡ some k
      → (o.key == "") ≡ false
      → is_plain o.key ≡ true
      → contains o.key b'/' ≡ false
      → slice (sent_body text k o) 0 (2 ^ 20) ≡ sent_body text k o
      → slice (text.print (result_json (answer k (asked k o) (view (store w) o.key)))) 0 (2 ^ 20)
        ≡ text.print (result_json (answer k (asked k o) (view (store w) o.key)))
      → Succeeds k node o w (build_request text url_path node o no_proxy)
  attempt-Succeeds k node o no_proxy w reads leads v known filled plain flat short whole =
      Succeeds-Proposes k node o w (build_request text url_path node o no_proxy) leads v whole (
        build_request-Proposes text url_path forward parses_url n k node o no_proxy w reads known
          filled plain flat short)
