-- ===== src/Kv/Spec.antt =====
-- What the store promises of one key: a register that is absent or holds a text, and what each kind
-- of operation does to it and answers. Nothing here comes from the code of the state machine.
use quorum_kv.Prelude.{
  eq_iff, arith, [], ◌∷◌, ◌≡◌, List, String, Bool, true, false, Option, none, some, ◌==◌,
  if◌then◌else◌,
}
use quorum_kv.Kv.Command.{Command, Result, op_put, op_get, op_delete, op_cas}

pub data Kind : Type 0 where
  put get delete cas : Kind

abbrev pub kind_of : String → Option Kind
kind_of s =
    if s == op_put
    then some put
    else if s == op_get
    then some get
    else if s == op_delete
    then some delete
    else if s == op_cas
    then some cas
    else none

abbrev pub name_of : Kind → String
name_of put = op_put
name_of get = op_get
name_of delete = op_delete
name_of cas = op_cas

pub kind_of-name_of : (k : Kind) (s : String) → kind_of s ≡ some k → s ≡ name_of k
kind_of-name_of put s h = ground (arith, eq_iff s op_put)
kind_of-name_of get s h = ground (arith, eq_iff s op_get)
kind_of-name_of delete s h = ground (arith, eq_iff s op_delete)
kind_of-name_of cas s h = ground (arith, eq_iff s op_cas)

-- Whether a compare-and-swap that expects `e` (nothing: the key absent) finds what it expects.
abbrev pub expects : Option String → Option String → Bool
expects none none = true
expects none (some v) = false
expects (some e) none = false
expects (some e) (some v) = v == e

-- The register afterwards.
abbrev pub next : Kind → Command → Option String → Option String
next put c old = some c.value
next get c old = old
next delete c old = none
next cas c old = if expects c.expect old then some c.value else old

abbrev reading : Bool → Option String → Result
reading b none = record { ok = b; present = false; value = "" }
reading b (some v) = record { ok = b; present = true; value = v }

abbrev done : Bool → Result
done b = record { ok = true; present = b; value = "" }

abbrev held : Option String → Bool
held none = false
held (some v) = true

-- The answer.
abbrev pub answer : Kind → Command → Option String → Result
answer put c old = done false
answer get c old = reading true old
answer delete c old = done (held old)
answer cas c old = if expects c.expect old then done false else reading false old

-- A store as a client sees it: every key's register.
abbrev pub Registers : Type 0
Registers = String → Option String

abbrev pub update : Registers → String → Option String → Registers
update s k v j = if k == j then v else s j

-- A command whose operation the store knows.
pub record Request : Type 0 where
  pub command : Command
  pub kind : Kind
  pub known : kind_of command.op ≡ some kind

-- The registers after a sequence of requests, and the answers in order.
abbrev pub after_requests : Registers → List Request → Registers
after_requests s [] = s
after_requests s (q ∷ qs) =
    after_requests (update s q.command.key (next q.kind q.command (s q.command.key))) qs

abbrev pub answers : Registers → List Request → List Result
answers s [] = []
answers s (q ∷ qs) =
    answer q.kind q.command (s q.command.key)
    ∷ answers (update s q.command.key (next q.kind q.command (s q.command.key))) qs
