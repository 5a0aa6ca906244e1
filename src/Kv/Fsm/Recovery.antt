-- ===== src/Kv/Fsm/Recovery.antt =====
-- Dump, Snapshot, Persist and Restore: a state machine that is restored from a persisted snapshot
-- shows the same registers, and answers every later log alike.
use quorum_kv.Prelude.{String, ◌≡◌, refl, sym, ◌∙◌, Option, none, List, [], ◌∷◌, arith}
use quorum_kv.Kv.Spec.{Request, answers}
use quorum_kv.GoMap.{Entries, made, get, lookup, entries, copy_into, insert, IsUnique}
use quorum_kv.GoMap.Laws.{lookup-copy_into, copy_into-IsUnique}
use quorum_kv.GoMap.Order.{sort_keys, lookup-sort_keys, sort_keys-IsUnique}
use quorum_kv.Json.{JsonText, JsonError}
use quorum_kv.Kv.Fsm.{
  Result, none, [], String, Option, Fsm, returned, dump, snapshot, persist, restore, map_json,
  fill_map, fields_of, decode_map,
}
use quorum_kv.Kv.Fsm.Step.{view, IsValid}
use quorum_kv.Kv.Fsm.Replay.{replay, log_of, Follows, replay-Follows}

abbrev pub SameView : Fsm → Fsm → Type 0
SameView f g = (k : String) → view f k ≡ view g k

-- `es` lists the entries of the map in some order, as a `range` over it does.
pub record Enumerates (es : Entries String) (f : Fsm) : Type 0 where
  pub unique : IsUnique es
  pub same : (k : String) → lookup k es ≡ view f k

-- the copy shows the registers, in whatever order its entries come
copy-Enumerates :
    (es : Entries String) (f : Fsm)
    → Enumerates es f
    → (k : String) → lookup k (copy_into [] es) ≡ view f k
unfolding lookup
copy-Enumerates es f e k = ground (arith, lookup-copy_into es [] k e.unique, e.same k)

-- Dump shows every register, in an allocated map, also if that of the state machine is nil.
pub dump_lem :
    (f : Fsm)
    → IsUnique (entries f.contents)
    → IsValid (record { contents = dump f }) × SameView (record { contents = dump f }) f
unfolding dump view get
dump_lem f u = (
  record { allocated = refl; unique = copy_into-IsUnique (entries f.contents) [] tt },
  copy-Enumerates (entries f.contents) f (record { unique = u; same = λ k. refl }),
)

-- In whatever order the entries of the map come, Dump of the state machine that holds them is an
-- allocated map of unique keys that shows every register of the state machine that they enumerate.
pub dump-Enumerates :
    (es : Entries String) (f : Fsm)
    → Enumerates es f
    → IsValid (record { contents = dump (record { contents = made es }) })
      × SameView (record { contents = dump (record { contents = made es }) }) f
unfolding view get
dump-Enumerates es f e =
    let (valid, shows) = dump_lem (record { contents = made es }) e.unique in
    (valid, λ k. shows k ∙ e.same k)

pub fill-fields_of :
    (l out : Entries String) (e : Option JsonError)
    → fill_map (fields_of l) out e ≡ (copy_into out l, e)
unfolding fill_map copy_into
fill-fields_of [] out e = refl
fill-fields_of ((k, v) ∷ l) out e = fill-fields_of l (insert k v out) e

pub record Recovered (f g : Fsm) (result : Fsm × Option JsonError) : Type 0 where
  pub after : Fsm
  pub restored : result ≡ (after, none)
  pub valid : IsValid after
  pub same : SameView after f

-- the entries as Marshal writes them
abbrev pub written : Fsm → Entries String
written f = sort_keys (copy_into [] (entries f.contents))

-- reading the written entries in their order gives every register
pub written-registers :
    (f : Fsm) → IsValid f → (k : String) → lookup k (copy_into [] (written f)) ≡ view f k
unfolding view get dump
written-registers f v =
    let copied = copy_into [] (entries f.contents) in
    copy-Enumerates (written f) f (record {
      unique = sort_keys-IsUnique copied (copy_into-IsUnique (entries f.contents) [] tt);
      same = λ k. lookup-sort_keys copied k ∙ (dump_lem f v.unique).1 k;
    })

-- Restoring what Persist wrote of a snapshot, into any state machine, gives no error and a valid
-- state machine with the registers of the one that was snapshotted.
pub restore-persist :
    (text : JsonText) (f g : Fsm)
    → IsValid f
    → Recovered f g (restore text g (persist text (snapshot f)))
unfolding view get restore persist snapshot dump decode_map map_json
restore-persist text f g v = record {
  after = record { contents = made (copy_into [] (written f)) };
  restored = rw (text.first-print (map_json (dump f)), fill-fields_of (written f) [] none);
  valid = record { allocated = refl; unique = copy_into-IsUnique (written f) [] tt };
  same = written-registers f v;
}

pub record SameFuture (f g : Fsm) (text : JsonText) (qs : List Request) : Type 0 where
  pub results : List Result
  pub left : Fsm
  pub right : Fsm
  pub left_runs : replay text f (log_of text qs) ≡ returned (left, results)
  pub right_runs : replay text g (log_of text qs) ≡ returned (right, results)
  pub same : SameView right left

-- A node that recovers from a snapshot, whatever it held before, and is then given the rest of the
-- log gives the results, and ends with the registers, of a node that has applied the whole log.
pub recovered_node :
    (text : JsonText) (f g : Fsm) (qs : List Request)
    → IsValid f
    → SameFuture f (restore text g (persist text (snapshot f))).0 text qs
recovered_node text f g qs v = rw back.restored (record {
  results = answers (view f) qs;
  left = whole.last;
  right = rest.last;
  left_runs = whole.runs;
  right_runs = rest.runs;
  same = λ k. rest.shows k ∙ sym (whole.shows k);
})
  where
    back : Recovered f g (restore text g (persist text (snapshot f)))
    back = restore-persist text f g v

    whole : Follows (view f) qs (replay text f (log_of text qs))
    whole = replay-Follows text f (view f) qs v (λ k. refl)

    rest : Follows (view f) qs (replay text back.after (log_of text qs))
    rest = replay-Follows text back.after (view f) qs back.valid back.same
