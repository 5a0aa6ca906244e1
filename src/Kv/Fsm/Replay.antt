-- ===== src/Kv/Fsm/Replay.antt =====
-- Applying a log, entry after entry, as Raft does ("Runs serially per Raft's contract").
use quorum_kv.Prelude.{◌++◌, String, ◌≡◌, refl, ap, ◌∙◌, List, [], ◌∷◌, map, arith}
use quorum_kv.Json.{JsonText, Bytes}
use quorum_kv.Kv.Command.{Command, Result, encode}
use quorum_kv.Kv.Spec.{Kind, Request, Registers, next, answer, update, after_requests, answers}
use quorum_kv.Kv.Fsm.{Fsm, Outcome, returned, panicked, apply}
use quorum_kv.Kv.Fsm.Step.{view, IsValid, Step, Refines, apply-Step}

abbrev push : Result → Outcome (Fsm × List Result) → Outcome (Fsm × List Result)
push r (returned (f, rs)) = returned (f, r ∷ rs)
push r (panicked m) = panicked m

-- The state machine after the log, with the results in order; a panic ends it.
unfoldable pub replay : JsonText → Fsm → List Bytes → Outcome (Fsm × List Result)
replay text f [] = returned (f, [])
replay text f (b ∷ bs) = elim (apply text f b) [
  | returned (f', r) ↦ push r (replay text f' bs)
  | panicked m ↦ panicked m
]

abbrev pub log_of : JsonText → List Request → List Bytes
log_of text = map (λ q. encode text q.command)

abbrev pub Shows : Fsm → Registers → Type 0
Shows f s = (j : String) → view f j ≡ s j

pub record Follows (s : Registers) (qs : List Request) (run : Outcome (Fsm × List Result))
    : Type 0 where
  pub last : Fsm
  pub runs : run ≡ returned (last, answers s qs)
  pub shows : Shows last (after_requests s qs)
  pub valid : IsValid last

Shows-update :
    {k : Kind} {c : Command} {f f' : Fsm} {r : Result} {s : Registers}
    → Refines k c f f' r
    → Shows f s
    → Shows f' (update s c.key (next k c (s c.key)))
Shows-update {k} {c} {f} {s = s} step h j =
    ground (arith, step.moved j, ap (next k c) (h c.key), h j)

replay-cons :
    (text : JsonText) (f f' : Fsm) (r : Result) (b : Bytes) (bs : List Bytes)
    → apply text f b ≡ returned (f', r)
    → replay text f (b ∷ bs) ≡ push r (replay text f' bs)
unfolding replay
replay-cons text f f' r b bs h = rw (h, replay)

Follows-cons :
    (text : JsonText) (f : Fsm) (s : Registers) (q : Request) (qs : List Request)
    → Shows f s
    → (step : Step q.kind q.command f (apply text f (encode text q.command)))
    → Follows
        (update s q.command.key (next q.kind q.command (s q.command.key)))
        qs
        (replay text step.after (log_of text qs))
    → Follows s (q ∷ qs) (replay text f (log_of text (q ∷ qs)))
Follows-cons text f s q qs h step rest = record {
  last = rest.last;
  runs =
      rw (replay-cons text f step.after step.reply _ (log_of text qs) step.runs, rest.runs)
        (ap
          (λ r. returned (
            rest.last,
            r ∷ answers (update s q.command.key (next q.kind q.command (s q.command.key))) qs,
          ))
          (step.refines.answered ∙ ap (answer q.kind q.command) (h q.command.key)));
  shows = rest.shows;
  valid = rest.valid;
}

-- Replaying the log of known requests on a valid state machine never panics: it gives the answers of
-- the specification in order, ends in the registers of the specification, and stays valid.
pub replay-Follows :
    (text : JsonText) (f : Fsm) (s : Registers) (qs : List Request)
    → IsValid f
    → Shows f s
    → Follows s qs (replay text f (log_of text qs))
replay-Follows text f s [] v h = record {
  last = f;
  runs = unfold replay in refl;
  shows = h;
  valid = v;
}
replay-Follows text f s (q ∷ qs) v h =
    let step = apply-Step text q.kind q.command f q.known v in
    Follows-cons text f s q qs h step
      (replay-Follows text step.after _ qs step.refines.valid (Shows-update step.refines h))

abbrev prefix : List Result → Outcome (Fsm × List Result) → Outcome (Fsm × List Result)
prefix rs (returned (f, rs')) = returned (f, rs ++ rs')
prefix rs (panicked m) = panicked m

abbrev chain :
    Outcome (Fsm × List Result) → (Fsm → Outcome (Fsm × List Result)) → Outcome (Fsm × List Result)
chain (returned (f, rs)) k = prefix rs (k f)
chain (panicked m) k = panicked m

prefix-nil : (x : Outcome (Fsm × List Result)) → x ≡ prefix [] x
prefix-nil (returned (f, rs)) = refl
prefix-nil (panicked m) = refl

push-prefix :
    (r : Result) (rs : List Result) (x : Outcome (Fsm × List Result))
    → push r (prefix rs x) ≡ prefix (r ∷ rs) x
push-prefix r rs (returned (f, rs')) = refl
push-prefix r rs (panicked m) = refl

push-chain :
    (r : Result) (x : Outcome (Fsm × List Result)) (k : Fsm → Outcome (Fsm × List Result))
    → push r (chain x k) ≡ chain (push r x) k
push-chain r (returned (f, rs)) k = push-prefix r rs (k f)
push-chain r (panicked m) k = refl

replay-cons-panics :
    (text : JsonText) (f : Fsm) (m : String) (b : Bytes) (bs : List Bytes)
    → apply text f b ≡ panicked m
    → replay text f (b ∷ bs) ≡ panicked m
unfolding replay
replay-cons-panics text f m b bs h = rw (h, replay)

replay-append-cons :
    (text : JsonText) (f : Fsm) (b : Bytes) (bs cs : List Bytes) (o : Outcome (Fsm × Result))
    → apply text f b ≡ o
    → ((g : Fsm) → replay text g (bs ++ cs) ≡ chain (replay text g bs) (λ h. replay text h cs))
    → replay text f (b ∷ (bs ++ cs)) ≡ chain (replay text f (b ∷ bs)) (λ g. replay text g cs)
replay-append-cons text f b bs cs (returned (g, r)) e ih =
    rw (replay-cons text f g r b (bs ++ cs) e, replay-cons text f g r b bs e, ih g)
      (push-chain r (replay text g bs) (λ h. replay text h cs))
replay-append-cons text f b bs cs (panicked m) e ih =
    rw (replay-cons-panics text f m b (bs ++ cs) e, replay-cons-panics text f m b bs e) refl

-- A log applied after another: the first one's end is where the second starts.
replay-append :
    (text : JsonText) (f : Fsm) (bs cs : List Bytes)
    → replay text f (bs ++ cs) ≡ chain (replay text f bs) (λ g. replay text g cs)
replay-append text f [] cs = unfold replay in prefix-nil (replay text f cs)
replay-append text f (b ∷ bs) cs =
    replay-append-cons text f b bs cs (apply text f b) refl (λ g. replay-append text g bs cs)

-- One more entry at the end of a log.
pub replay-snoc :
    (text : JsonText) (f g g' : Fsm) (bs : List Bytes) (rs : List Result) (b : Bytes) (r : Result)
    → replay text f bs ≡ returned (g, rs)
    → apply text g b ≡ returned (g', r)
    → replay text f (bs ++ b ∷ []) ≡ returned (g', rs ++ r ∷ [])
replay-snoc text f g g' bs rs b r h a =
    rw (replay-append text f bs (b ∷ []), h, replay-cons text g g' r b [] a) (unfold replay in refl)
