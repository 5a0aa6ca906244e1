-- ===== src/Kv/Fsm/Panics.antt =====
-- When Apply panics: on an entry that does not decode, on an unknown operation, and on a write to a
-- nil map.
use quorum_kv.Prelude.{String, ◌≡◌, refl, Bool, true, false, Option, none, some, arith}
use quorum_kv.GoMap.{GoMap, nil_map, made, lookup}
use quorum_kv.Json.{null, JsonText, JsonError, Bytes}
use quorum_kv.Kv.Command.{Command, decode_command}
use quorum_kv.Kv.Spec.{Kind, put, get as read, delete as remove, cas, kind_of}
use quorum_kv.Kv.Fsm.{
  Fsm, Outcome, returned, panicked, execute, apply, apply_decoded, restore, decode_map,
}
use quorum_kv.Kv.Fsm.Step.{IsValid}

abbrev pub panics {ℓ} : {A : Type ℓ} → Outcome A → Bool
panics (returned a) = false
panics (panicked m) = true

abbrev pub unknown : Option Kind → Bool
unknown none = true
unknown (some k) = false

abbrev pub unfit : Command × Option JsonError → Bool
unfit (c, some e) = true
unfit (c, none) = unknown (kind_of c.op)

execute-panics :
    (c : Command) (m : GoMap String)
    → IsValid (record { contents = m })
    → panics (execute c (record { contents = m })) ≡ unknown (kind_of c.op)
unfolding execute
execute-panics c nil_map v = cc
execute-panics c (made l) v = ground arith

panics-decoded :
    (text : JsonText) (f : Fsm) (d : Command × Option JsonError)
    → IsValid f
    → panics (apply_decoded text d f) ≡ unfit d
panics-decoded text f (c, some e) v = refl
panics-decoded text f (c, none) v = execute-panics c f.contents v

-- On a valid state machine Apply panics exactly on the entries that do not decode to a command of a
-- known operation.
pub apply-panics :
    (text : JsonText) (f : Fsm) (b : Bytes)
    → IsValid f
    → panics (apply text f b) ≡ unfit (decode_command text b)
unfolding apply
apply-panics text f b v = panics-decoded text f (decode_command text b) v

-- Whether an operation writes when its key is absent.
abbrev pub writes : Kind → Option String → Bool
writes put e = true
writes read e = false
writes remove e = false
writes cas none = true
writes cas (some e) = false

nil_map-panics :
    (k : Kind) (c : Command)
    → kind_of c.op ≡ some k
    → panics (execute c (record { contents = nil_map })) ≡ writes k c.expect
unfolding execute lookup
nil_map-panics put c h = ground arith
nil_map-panics read c h = ground arith
nil_map-panics remove c h = ground arith
nil_map-panics cas c h = ground arith

-- A snapshot stream that holds `null` is restored without an error, but to a nil map: from then on
-- every operation that would write to its key panics, and the others do not.
pub restore_null :
    (text : JsonText) (f : Fsm) (k : Kind) (c : Command)
    → kind_of c.op ≡ some k
    → ((restore text f (text.print null)).1 ≡ none)
      × (panics (execute c (restore text f (text.print null)).0) ≡ writes k c.expect)
unfolding restore decode_map
restore_null text f k c h = rw text.first-print (refl, nil_map-panics k c h)
