-- ===== src/Contract/Status.antt =====
-- What the harness reads of /internal/state and /healthz is what the node wrote.
use quorum_kv.Prelude.{◌∷◌, ◌∙◌, String, ◌≡◌, refl, Option, none, some, []}
use quorum_kv.GoMap.{lookup, made, entries, copy_into}
use quorum_kv.Json.Decode.{unmarshal}
use quorum_kv.Kv.Fsm.{Fsm}
use quorum_kv.Kv.Fsm.Recovery.{fill-fields_of, written, written-registers}
use quorum_kv.Kv.Fsm.Step.{view, IsValid}
use quorum_kv.Server.Node.{Config}
use quorum_kv.Server.Status.{RaftStatus, state_json, handle_state, handle_healthz}
use quorum_kv.Harness.Runner.{Env}
use quorum_kv.Harness.Faults.{leader_of}
use quorum_kv.Harness.Phases.Convergence.Same.{SameState, identical-SameState}
use quorum_kv.Prelude.{arith, inl, ap, sym, true}
use quorum_kv.GoMap.{IsUnique}
use quorum_kv.GoMap.Laws.{copy_into-IsUnique}
use quorum_kv.Harness.Phases.Convergence.{compared, identical, NodeState, state_of}

module _ {W : Type 0} (e : Env W) (cfg : Config) (r : RaftStatus) where
  -- LeaderID takes from /healthz the leader that Raft names.
  pub leader_of-healthz : leader_of e (some (handle_healthz e.text cfg r).body) ≡ r.leader_id
  unfolding handle_healthz unmarshal
  leader_of-healthz = rw e.text.parse-print refl

  -- What the convergence phase has of a node: its name, its applied index and its registers.
  pub record Reads (f : Fsm) (x : Option NodeState) : Type 0 where
    pub state : NodeState
    pub there : x ≡ some state
    pub node : state.node ≡ cfg.node_id
    pub last_applied : state.last_applied ≡ r.stats "applied_index"
    pub unique : IsUnique (entries state.contents)
    pub registers : (k : String) → lookup k (entries state.contents) ≡ view f k

  -- The convergence phase reads from /internal/state the name of the node, the applied index that Raft
  -- gives, and every register of the state machine.
  pub state_of-handle_state :
      (f : Fsm) → IsValid f → Reads f (state_of e (some (handle_state e.text cfg r f).body))
  unfolding handle_state unmarshal
  state_of-handle_state f v = record {
    state = record {
      node = cfg.node_id;
      last_applied = r.stats "applied_index";
      contents = made (copy_into [] (written f));
    };
    there = rw (e.text.parse-print (state_json cfg r f), fill-fields_of (written f) [] none) refl;
    node = refl;
    last_applied = refl;
    unique = copy_into-IsUnique (written f) [] tt;
    registers = written-registers f v;
  }

-- a node, as far as /internal/state shows it
pub record Replica : Type 0 where
  pub config : Config
  pub status : RaftStatus
  pub fsm : Fsm

-- the same registers at the same applied index
pub record Agree (p q : Replica) : Type 0 where
  pub registers : (k : String) → view p.fsm k ≡ view q.fsm k
  pub applied : p.status.stats "applied_index" ≡ q.status.stats "applied_index"

module _ {W : Type 0} (e : Env W) where
  -- what the convergence phase has of a node
  abbrev pub seen : Replica → Option NodeState
  seen p = state_of e (some (handle_state e.text p.config p.status p.fsm).body)

  converged-identical :
      (x y z : NodeState) (d : String)
      → compared e (x ∷ y ∷ z ∷ []) ≡ inl d
      → identical x y z ≡ true
  unfolding compared
  converged-identical x y z d h = ground (arith, h)

  abbrev held : NodeState → Option NodeState → NodeState
  held x none = x
  held x (some y) = y

  Agree-SameState :
      (p q : Replica) (x y : NodeState)
      → Reads e p.config p.status p.fsm (some x)
      → Reads e q.config q.status q.fsm (some y)
      → SameState x y
      → Agree p q
  Agree-SameState p q x y a b s =
      let i = ap (held x) a.there in
      let j = ap (held y) b.there in
      record {
        registers = λ k.
            sym (a.registers k)
            ∙ ap (λ n. lookup k (entries n.contents)) (sym i)
            ∙ s.registers k
            ∙ ap (λ n. lookup k (entries n.contents)) j
            ∙ b.registers k;
        applied =
            sym a.last_applied
            ∙ ap (λ n. n.last_applied) (sym i)
            ∙ s.last_applied
            ∙ ap (λ n. n.last_applied) j
            ∙ b.last_applied;
      }

  -- When the convergence phase finds the states of three nodes identical, the state machines of the three
  -- hold the same registers, and Raft gives the same applied index for them.
  pub converged-Agree :
      (p q r : Replica) (x y z : NodeState) (d : String)
      → IsValid p.fsm
      → IsValid q.fsm
      → IsValid r.fsm
      → seen p ≡ some x
      → seen q ≡ some y
      → seen r ≡ some z
      → compared e (x ∷ y ∷ z ∷ []) ≡ inl d
      → Agree p q × Agree q r
  converged-Agree p q r x y z d u v w hx hy hz h =
      let a = read_of p x u hx in
      let b = read_of q y v hy in
      let c = read_of r z w hz in
      let (s, t) =
        identical-SameState x y z (unique_of p x a) (unique_of q y b) (unique_of r z c)
          (converged-identical x y z d h) in
      (Agree-SameState p q x y a b s, Agree-SameState q r y z b c t)
    where
      read_of :
          (p : Replica) (x : NodeState)
          → IsValid p.fsm
          → seen p ≡ some x
          → Reads e p.config p.status p.fsm (some x)
      read_of p x u h = rw (sym h) (state_of-handle_state e p.config p.status p.fsm u)

      unique_of :
          (p : Replica) (x : NodeState)
          → Reads e p.config p.status p.fsm (some x)
          → IsUnique (entries x.contents)
      unique_of p x a = rw (ap (held x) a.there) a.unique
