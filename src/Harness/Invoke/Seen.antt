-- ===== src/Harness/Invoke/Seen.antt =====
-- What a client remembers of a key, and what the store holds.
use quorum_kv.Prelude.{String, ◌≡◌, Option, none, some, ◌==◌, arith, if◌then◌else◌}
use quorum_kv.GoMap.{lookup}
use quorum_kv.GoMap.Laws.{lookup-insert}
use quorum_kv.Kv.Command.{Command, Result}
use quorum_kv.Kv.Spec.{Kind, kind_of, kind_of-name_of, next, answer}
use quorum_kv.Kv.Spec.Kind.{put, get, delete, cas}
use quorum_kv.History.{Op}
use quorum_kv.Harness.Invoke.{Client, note_seen}

-- The command that an operation's request makes.
abbrev pub command_of : Op → Command
command_of o = record { op = o.op; key = o.key; value = o.value; expect = o.expect }

-- The record of an operation that got an answer.
abbrev pub told : Op → Result → Op
told o r = record o { ok = r.ok; present = r.present; ret_val = r.value }

-- When an operation of a known kind was carried out on a register holding `old`, and the client is told
-- the store's answer, then it remembers what the register holds afterwards, and of the other keys what
-- it did.
pub note_seen-next :
    (k : Kind) (c : Client) (o : Op) (old : Option String) (j : String)
    → kind_of o.op ≡ some k
    → lookup j (note_seen c (told o (answer k (command_of o) old))).last_seen
      ≡ (if o.key == j then some (next k (command_of o) old) else lookup j c.last_seen)
unfolding note_seen
note_seen-next put c o old j h =
    rw (kind_of-name_of put o.op h, lookup-insert o.key j (some o.value) c.last_seen)
note_seen-next get c o none j h =
    rw (kind_of-name_of get o.op h, lookup-insert o.key j none c.last_seen)
note_seen-next get c o (some v) j h =
    rw (kind_of-name_of get o.op h, lookup-insert o.key j (some v) c.last_seen)
note_seen-next delete c o old j h =
    rw (kind_of-name_of delete o.op h, lookup-insert o.key j none c.last_seen)
note_seen-next cas c o none j h = rw (kind_of-name_of cas o.op h) (
    ground (
      arith,
      lookup-insert o.key j (some o.value) c.last_seen,
      lookup-insert o.key j none c.last_seen,
    ))
note_seen-next cas c o (some v) j h = rw (kind_of-name_of cas o.op h) (
    ground (
      arith,
      lookup-insert o.key j (some o.value) c.last_seen,
      lookup-insert o.key j (some v) c.last_seen,
    ))
