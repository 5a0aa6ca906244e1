-- ===== src/Checker/Step.antt =====
-- The model's Step against the specification of the store: it moves as the store does, and it checks
-- the fields of an answer on which the clients rely.
use quorum_kv.Prelude.{
  String, ◌≡◌, ap, sym, ◌∙◌, Bool, true, ◌&&◌, ◌||◌, not, Option, none, some, List, [], ◌∷◌, ◌==◌,
  eq_iff, arith, if◌then◌else◌, ◌↔◌, All,
}
use mathlib.Core.Path.{subst}
use quorum_kv.Kv.Command.{Command, Result}
use quorum_kv.Kv.Spec.{
  kind_of-name_of, Kind, put, get, delete, cas, kind_of, next, answer, Registers, Request, answers,
  update,
}
use quorum_kv.Checker.Model.{
  KvInput, KvOutput, KvState, Operation, step, state_matches, init, bool_eq,
}
use quorum_kv.Checker.Linearizable.{Accepts}

-- The state of the model that stands for a register.
abbrev pub reg : Option String → KvState
reg none = init
reg (some v) = record { present = true; val = v }

abbrev pub command_of : KvInput → Command
command_of i = record { op = i.op; key = i.key; value = i.val; expect = i.expect }

-- What Step checks of a recorded output against the store's answer: of a put and a delete nothing,
-- of a get whether the key was there and its value, of a cas whether it won, if that is known.
abbrev pub allows : Kind → KvOutput → Result → Bool
allows put out r = true
allows get out r = bool_eq out.present r.present && (not r.present || out.val == r.value)
allows delete out r = true
allows cas out r = if out.unknown then true else bool_eq out.ok r.ok

-- Step accepts an output exactly when it is allowed beside the store's answer.
pub step-allows :
    (k : Kind) (i : KvInput) (out : KvOutput) (old : Option String)
    → kind_of i.op ≡ some k
    → (step (reg old) i out).0 ≡ allows k out (answer k (command_of i) old)
unfolding step state_matches
step-allows put i out old h = rw (kind_of-name_of put i.op h) (ground arith)
step-allows get i out old h = rw (kind_of-name_of get i.op h) (ground arith)
step-allows delete i out old h = rw (kind_of-name_of delete i.op h) (ground arith)
step-allows cas i out old h = rw (kind_of-name_of cas i.op h) (ground arith)

-- Where Step accepts, its next state is the store's next register.
pub step-next :
    (k : Kind) (i : KvInput) (out : KvOutput) (old : Option String)
    → kind_of i.op ≡ some k
    → (step (reg old) i out).0 ≡ true
    → (step (reg old) i out).1 ≡ reg (next k (command_of i) old)
unfolding step state_matches
step-next put i out old h = rw (kind_of-name_of put i.op h) (λ a. ground arith)
step-next get i out old h = rw (kind_of-name_of get i.op h) (λ a. ground arith)
step-next delete i out old h = rw (kind_of-name_of delete i.op h) (λ a. ground arith)
step-next cas i out old h = rw (kind_of-name_of cas i.op h) (λ a. ground arith)

-- An operation on the key `k` that the store knows.
abbrev pub KnownAt : String → Operation → Type 0
KnownAt k o = (kind : Kind) × (kind_of o.input.op ≡ some kind) × (o.input.key ≡ k)

-- The requests of a sequence of operations.
abbrev pub requests : (k : String) (os : List Operation) → All (KnownAt k) os → List Request
requests k [] h = []
requests k (o ∷ os) h =
    record { command = command_of o.input; kind = h.0.0; known = h.0.1 } ∷ requests k os h.1

-- Each recorded output is allowed beside its answer.
abbrev pub Allowed : (k : String) (os : List Operation) → All (KnownAt k) os → List Result → Type 0
Allowed k [] h rs = Unit
Allowed k (o ∷ os) h [] = ⊥
Allowed k (o ∷ os) h (r ∷ rs) = (allows h.0.0 o.output r ≡ true) × Allowed k os h.1 rs

Allowed-cons :
    (k : String) (s : Registers) (o : Operation) (os : List Operation)
    (h : All (KnownAt k) (o ∷ os))
    → ((s' : Registers)
        → Accepts (reg (s' k)) os ↔ Allowed k os h.1 (answers s' (requests k os h.1)))
    → Accepts (reg (s k)) (o ∷ os) ↔ Allowed k (o ∷ os) h (answers s (requests k (o ∷ os) h))
Allowed-cons k s o os ((kind, known, at), hs) ih = (
  λ a. (sym (checked) ∙ a.0, rest.0 (subst (λ st. Accepts st os) (moves a.0) a.1)),
  λ b. (checked ∙ b.0, subst (λ st. Accepts st os) (sym (moves (checked ∙ b.0))) (rest.1 b.1)),
)
  where
    c : Command
    c = command_of o.input

    s' : Registers
    s' = update s c.key (next kind c (s c.key))

    rest : Accepts (reg (s' k)) os ↔ Allowed k os hs (answers s' (requests k os hs))
    rest = ih s'

    checked : (step (reg (s k)) o.input o.output).0 ≡ allows kind o.output (answer kind c (s c.key))
    checked = rw (ap s at) (step-allows kind o.input o.output (s k) known)

    moves :
        (step (reg (s k)) o.input o.output).0 ≡ true
        → (step (reg (s k)) o.input o.output).1 ≡ reg (s' k)
    moves a =
        step-next kind o.input o.output (s k) known a
        ∙ ap reg (ground (arith, eq_iff c.key k, ap s at))

-- The model accepts a sequence of operations on one key exactly when a store that holds the key's
-- register and carries the operations out in that order gives answers beside which the recorded
-- outputs are allowed: that of a get if it has the answer's presence and, where the key is present,
-- its value; that of a cas if it is unknown or has the answer's ok; and that of a put or a delete
-- always, whatever it says.
pub Accepts-iff-Allowed :
    (k : String) (s : Registers) (os : List Operation) (h : All (KnownAt k) os)
    → Accepts (reg (s k)) os ↔ Allowed k os h (answers s (requests k os h))
Accepts-iff-Allowed k s [] h = (λ a. tt, λ a. tt)
Accepts-iff-Allowed k s (o ∷ os) h = Allowed-cons k s o os h (λ s'. Accepts-iff-Allowed k s' os h.1)
