-- ===== src/Kv/Fsm/Step.antt =====
-- Apply is the specification at the key of its command and leaves every other key alone.
use quorum_kv.Prelude.{String, ◌≡◌, refl, false, Option, some, ◌==◌, eq_iff, arith, if◌then◌else◌}
use quorum_kv.GoMap.{
  GoMap, nil_map, made, get as get_key, entries, is_nil, IsUnique, Entries, lookup, insert, without,
}
use quorum_kv.GoMap.Laws.{lookup-insert, lookup-without, insert-IsUnique, without-IsUnique}
use quorum_kv.Json.{JsonText}
use quorum_kv.Kv.Command.{Command, Result, encode, decode_command-encode}
use quorum_kv.Kv.Spec.{Kind, put, get, delete, cas, expects, kind_of, next, answer}
use quorum_kv.Kv.Fsm.{Fsm, Outcome, returned, execute, apply}

-- The register at a key.
unfoldable pub view : Fsm → String → Option String
unfolding get_key
view f k = get_key f.contents k

-- The map is allocated and holds each key once.
pub record IsValid (f : Fsm) : Type 0 where
  pub allocated : is_nil f.contents ≡ false
  pub unique : IsUnique (entries f.contents)

-- The registers of `f'` are those of `f` but for the key of the command.
pub record Refines (k : Kind) (c : Command) (f f' : Fsm) (r : Result) : Type 0 where
  pub answered : r ≡ answer k c (view f c.key)
  pub moved : (j : String) → view f' j ≡ (if c.key == j then next k c (view f c.key) else view f j)
  pub valid : IsValid f'

pub record Step (k : Kind) (c : Command) (f : Fsm) (run : Outcome (Fsm × Result)) : Type 0 where
  pub after : Fsm
  pub reply : Result
  pub runs : run ≡ returned (after, reply)
  pub refines : Refines k c f after reply

-- The entries that each kind of operation leaves.
abbrev effect : Kind → Command → Entries String → Entries String
effect put c l = insert c.key c.value l
effect get c l = l
effect delete c l = without c.key l
effect cas c l = if expects c.expect (lookup c.key l) then insert c.key c.value l else l

abbrev over : Entries String → Fsm
over l = record { contents = made l }

execute-effect :
    (k : Kind) (c : Command) (l : Entries String)
    → kind_of c.op ≡ some k
    → execute c (over l) ≡ returned (over (effect k c l), answer k c (lookup c.key l))
unfolding execute
execute-effect put c l h = ground arith
execute-effect get c l h = ground arith
execute-effect delete c l h = ground arith
execute-effect cas c l h = ground arith

lookup-effect :
    (k : Kind) (c : Command) (l : Entries String) (j : String)
    → lookup j (effect k c l) ≡ (if c.key == j then next k c (lookup c.key l) else lookup j l)
lookup-effect put c l j = lookup-insert c.key j c.value l
lookup-effect get c l j = ground (arith, eq_iff c.key j)
lookup-effect delete c l j = lookup-without c.key j l
lookup-effect cas c l j = ground (arith, eq_iff c.key j, lookup-insert c.key j c.value l)

effect-IsUnique :
    (k : Kind) (c : Command) (l : Entries String) → IsUnique l → IsUnique (effect k c l)
effect-IsUnique put c l u = insert-IsUnique c.key c.value l u
effect-IsUnique get c l u = u
effect-IsUnique delete c l u = without-IsUnique c.key l u
effect-IsUnique cas c l u = ground (arith, insert-IsUnique c.key c.value l u)

execute_over :
    (k : Kind) (c : Command) (m : GoMap String)
    → kind_of c.op ≡ some k
    → IsValid (record { contents = m })
    → Step k c (record { contents = m }) (execute c (record { contents = m }))
unfolding view
execute_over k c nil_map h v = cc
execute_over k c (made l) h v = record {
  after = over (effect k c l);
  reply = answer k c (lookup c.key l);
  runs = execute-effect k c l h;
  refines = record {
    answered = refl;
    moved = lookup-effect k c l;
    valid = record { allocated = refl; unique = effect-IsUnique k c l v.unique };
  };
}

pub execute-Step :
    (k : Kind) (c : Command) (f : Fsm)
    → kind_of c.op ≡ some k
    → IsValid f
    → Step k c f (execute c f)
execute-Step k c f h v = execute_over k c f.contents h v

-- On a valid state machine, applying the log entry of a command of a known kind returns: the answer
-- and the register at the command's key are the specification's, every other register is as it was,
-- and the state machine is valid again.
pub apply-Step :
    (text : JsonText) (k : Kind) (c : Command) (f : Fsm)
    → kind_of c.op ≡ some k
    → IsValid f
    → Step k c f (apply text f (encode text c))
unfolding apply
apply-Step text k c f h v = rw decode_command-encode (execute-Step k c f h v)
