-- ===== src/Harness/Tests.antt =====
-- The statements about the harness at concrete inputs.
use quorum_kv.Prelude.{
  inr, inl, ◌⊎◌, if◌then◌else◌, Option, ◌==◌, ℕ, true, Bool, String, ◌≡◌, refl, false, none, some,
  [], ◌∷◌, arith,
}
use quorum_kv.Prelude.Int.{pos}
use quorum_kv.GoMap.{lookup}
use quorum_kv.History.{Op}
use quorum_kv.Kv.Spec.{Kind, answer}
use quorum_kv.Harness.Nodes.{Node}
use quorum_kv.Harness.Client.{classed}
use quorum_kv.Harness.Invoke.{Client, Round, nth, invoke, note_seen}
use quorum_kv.Harness.Invoke.Seen.{command_of, told, note_seen-next}
use quorum_kv.Harness.Invoke.Available.{schedule, Acknowledged, IsOk, invoke-Acknowledged}
use quorum_kv.Harness.Invoke.Attempts.{IsRetried, Returns, invoke-Returns}

abbrev node_named : String → Node
node_named s = record { id = s; url = "http://localhost"; container = s; ip = "" }

abbrev client : Client
client = record {
  id = pos 1;
  nodes = node_named "n1" ∷ node_named "n2" ∷ node_named "n3" ∷ [];
  seq = 0;
  last_seen = ("b", some "7") ∷ [];
  recorded = [];
}

abbrev cas_a : Op
cas_a = record {
  client = pos 1;
  op = "cas";
  key = "a";
  value = "2";
  expect = some "1";
  start_ns = pos 0;
  end_ns = pos 0;
  outcome = "";
  ok = false;
  present = false;
  ret_val = "";
  node = "";
}

-- A failed cas is told the value that it found.
note_seen-next_example :
    lookup "a"
      (note_seen client (told cas_a (answer Kind.cas (command_of cas_a) (some "9")))).last_seen
    ≡ some (some "9")
note_seen-next_example = note_seen-next Kind.cas client cas_a (some "9") "a" refl

abbrev refused : Round
refused = record { start_ns = pos 1; end_ns = pos 2; result = classed "fail"; late = false }

abbrev lost_answer : Round
lost_answer = record { start_ns = pos 3; end_ns = pos 4; result = classed "unknown"; late = false }

-- The third node refuses, then the first one does not answer in time.
invoke-Returns_example :
    Returns client cas_a
      (node_named "n1")
      lost_answer
      (invoke client cas_a none 2 (refused ∷ lost_answer ∷ []))
unfolding nth
invoke-Returns_example =
    invoke-Returns client cas_a 2 (refused ∷ []) lost_answer [] (node_named "n1") (omega arith)
      (refl, tt) refl refl

abbrev answers : Round
answers = record {
  start_ns = pos 3;
  end_ns = pos 4;
  result = record { class = "ok"; ok = true; present = false; val = "" };
  late = false;
}

-- Only the second node is up.
abbrev respond : ℕ → Option Node → Round
respond a none = refused
respond a (some m) = if m.id == "n2" then answers else refused

respond_lem :
    (b : Bool) → IsOk (if b then answers else refused) ⊎ IsRetried (if b then answers else refused)
respond_lem true = inl refl
respond_lem false = inr refl

invoke-Acknowledged_example :
    Acknowledged cas_a (invoke client cas_a none 2 (schedule client respond 2 0 3))
unfolding nth
invoke-Acknowledged_example =
    invoke-Acknowledged client respond 2 1 (node_named "n2") cas_a refl (omega arith) (λ _. refl)
      (λ a m. respond_lem (m.id == "n2"))
