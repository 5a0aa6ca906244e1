-- ===== src/Harness/Runner/Steady.antt =====
-- The single actions come to an end in a lawful world.
use quorum_kv.Prelude.{
  ◌≡◌, Bool, true, Option, none, List, [], ◌∷◌, arith, length, ℕ, zero, suc, ◌+◌, ◌<◌, ◌≤◌,
}
use quorum_kv.History.{Op}
use quorum_kv.Harness.Nodes.{Node}
use quorum_kv.Harness.Invoke.{Client, invoke, is_some}
use quorum_kv.Harness.Invoke.Ends.{invoke-ends}
use quorum_kv.Harness.Run.Recorded.{Outcomes, closed, endless, invoke-Outcomes}
use quorum_kv.Harness.Runner.{
  Env, Options, State, Run, outside, asks, ◌>>=◌, wait, check, add_event, recording, invoke_op,
}
use quorum_kv.Harness.Runner.Rules.{Any}
use quorum_kv.Harness.Runner.Total.{
  Lawful, Ends, Since, Total, Total-pure, Total-outside, Total-either, Total-weaken, Total-bind,
}
use quorum_kv.Prelude.{String}
use quorum_kv.Harness.Faults.{
  exec, exec_all, kill, start, isolate, isolate_commands, heal_all, heal_commands, leader_id,
  record_event,
}
use quorum_kv.Harness.Workload.{intn}

module _ {W : Type 0} {e : Env W} {o : Options} {c : ℕ} where
  pub Total-options : Total e o c c (λ a. a ≡ o) (asks (λ r. r.options))
  unfolding asks
  Total-options = record { at = λ s (same, h). (same, (same, h)) }

  pub Total-check :
      (name : String) (pass : Bool) (detail : String) → Total e o c c Any (check name pass detail)
  unfolding check
  Total-check name pass detail = record { at = λ s h. (tt, h) }

  -- what follows a look at the clock
  pub Total-clock :
      {B : Type 0} {U : B → Type 0} {d : ℕ} {k : ℕ → Run W B}
      → ((now : ℕ) → c ≤ now → Total e o now d U (k now))
      → Total e o c d U (outside (λ w. (e.clock w, w)) >>= k)
  unfolding ◌>>=◌ outside
  Total-clock h = record { at = λ s (same, p). (h (e.clock s.world) p).at s (same, omega arith) }

module _ {W : Type 0} {e : Env W} (l : Lawful e) {o : Options} {c : ℕ} where
  pub Total-sleep : (d : ℕ) → Total e o c (c + d) Any (wait (e.sleep d))
  unfolding wait
  Total-sleep d = record {
    at = λ s (same, h). (tt, (same, omega (arith, h, l.sleep_later d s.world)));
  }

  pub Total-rest : (d : ℕ) → Total e o c c Any (wait (e.sleep d))
  Total-rest d = Total-weaken (omega arith) (omega arith) (Total-sleep d)

  pub Total-idle : (d : ℕ) → Total e o c c Any (wait (e.idle d))
  unfolding wait
  Total-idle d = record {
    at = λ s (same, h). (tt, (same, omega (arith, h, l.idle_later d s.world)));
  }

  pub Total-intn : (n : ℕ) → 0 < n → Total e o c c (λ i. i < n) (intn e n)
  unfolding intn
  Total-intn zero h = absurd (omega arith)
  Total-intn (suc n) h = Total-outside _ (l.intn_below n) (l.intn_later (suc n))

  pub Total-exec : (argv : List String) → Total e o c c Any (exec e argv)
  unfolding exec
  Total-exec argv = Total-outside _ (λ w. tt) (l.exec_later argv)

  pub Total-get : (url : String) → Total e o c c Any (outside (e.http_get url))
  Total-get url = Total-outside _ (λ w. tt) (l.http_get_later url)

  recorded :
      (client : Client) (op : Op) (s : State W) (w : W) (x : Option (Client × Op))
      → Since e o c s
      → c ≤ e.clock w
      → Outcomes client op x
      → is_some x ≡ true
      → Ends (λ a t. (a.0.nodes ≡ client.nodes) × Since e o c t) (recording s w x)
  recorded client op s w _ (same, h) later endless some_ = absurd cc
  recorded client op s w _ (same, h) later (closed c' done cl) some_ =
      (cl.same_nodes, (same, later))

  -- a call of Invoke that has a node to send to
  pub Total-invoke :
      (client : Client) (op : Op) (deadline : ℕ) (direct : Bool) (pin : Option Node)
      → 0 < length client.nodes
      → Total e o c c (λ a. a.0.nodes ≡ client.nodes) (invoke_op e client op deadline direct pin)
  unfolding invoke_op
  Total-invoke client op deadline direct pin some_ = record {
    at = λ s h.
        let ((first, rounds), w) = e.attempts client op deadline direct pin s.world in
        let client' : Client = record client { recorded = s.runner.recorded } in
        recorded client' op s w (invoke client' op pin first rounds) h
          (omega (arith, h.1, l.attempts_later client op deadline direct pin s.world))
          (invoke-Outcomes client' op pin first rounds)
          (invoke-ends client' op pin first rounds some_
            (l.attempts_end client op deadline direct pin s.world));
  }

module _ {W : Type 0} {e : Env W} (l : Lawful e) {o : Options} {c : ℕ} where
  pub Total-event :
      (action target detail : String) → Total e o c c Any (record_event e action target detail)
  unfolding record_event
  Total-event action target detail =
      Total-bind (Total-outside {V = Any} _ (λ w. tt) (λ w. omega arith))
        λ now _. record { at = λ s h. unfold add_event in (tt, h) }

  pub Total-exec_all :
      (argvs : List (List String)) (x : Option String) → Total e o c c Any (exec_all e argvs x)
  unfolding exec_all
  Total-exec_all [] x = Total-pure _ tt
  Total-exec_all (argv ∷ argvs) x = Total-bind (Total-exec l argv) λ r _. Total-exec_all argvs _

  pub Total-kill : (n : Node) → Total e o c c Any (kill e n)
  unfolding kill
  Total-kill n =
      Total-bind (Total-exec l _) λ r _. Total-bind (Total-event _ _ _) λ u _. Total-pure _ tt

  pub Total-start : (n : Node) → Total e o c c Any (start e n)
  unfolding start
  Total-start n =
      Total-bind (Total-exec l _) λ r _. Total-bind (Total-event _ _ _) λ u _. Total-pure _ tt

  pub Total-isolate : (nodes : List Node) (n : Node) → Total e o c c Any (isolate e nodes n)
  unfolding isolate
  Total-isolate nodes n =
      Total-bind (Total-exec_all (isolate_commands nodes n) none)
        λ r _. Total-bind (Total-event _ _ _) λ u _. Total-pure _ tt

  pub Total-heal_all : (nodes : List Node) → Total e o c c Any (heal_all e nodes)
  unfolding heal_all
  Total-heal_all nodes =
      Total-bind (Total-exec_all (heal_commands nodes) none) λ r _. Total-event _ _ _

  pub Total-leader_id : (nodes : List Node) → Total e o c c Any (leader_id e nodes)
  unfolding leader_id
  Total-leader_id [] = Total-pure _ tt
  Total-leader_id (n ∷ nodes) =
      Total-bind (Total-get l _) λ body _. Total-either _ (Total-leader_id nodes) (Total-pure _ tt)
