-- ===== src/Contract/Bodies.antt =====
-- The bodies of requests and responses, as the other side reads them.
use quorum_kv.Prelude.{String, ◌≡◌, refl, Option, none, some, ok}
use Prim.Native.Nat.{◌^◌}
use Prim.Native.String.{slice}
use quorum_kv.Json.{JsonText}
use quorum_kv.Json.Decode.{unmarshal, fill_struct}
use quorum_kv.Kv.Command.{Result}
use quorum_kv.Server.Http.{write_json, put_slots}
use quorum_kv.Harness.Client.{answered, classify}
use quorum_kv.Server.Http.{result_json, cas_slots}
use quorum_kv.Json.{obj, field, str, end}
use quorum_kv.Kv.Command.{string_pointer_json}

-- Within the client's limit, a client reads from the server's answer what the store answered.
pub classify-result :
    (text : JsonText) (res : Result)
    → slice (text.print (result_json res)) 0 (2 ^ 20) ≡ text.print (result_json res)
    → classify text (answered 200 (ok (write_json text 200 (result_json res)).body))
      ≡ record { class = "ok"; ok = res.ok; present = res.present; val = res.value }
unfolding classify unmarshal
classify-result text res whole = rw (whole, text.parse-print (result_json res))

pub put_body-read :
    (text : JsonText) (v : String)
    → unmarshal text put_slots
        (text.print (obj (field "value" (str v) end)))
        (record { value = "" })
      ≡ (record { value = v }, none)
unfolding unmarshal
put_body-read text v = rw (text.parse-print (obj (field "value" (str v) end)))

expected-read :
    (e : Option String) (v : String)
    → fill_struct cas_slots
        (obj (field "expect" (string_pointer_json e) (field "value" (str v) end)))
        (record { expect = none; value = "" })
      ≡ (record { expect = e; value = v }, none)
unfolding fill_struct
expected-read none v = refl
expected-read (some e) v = refl

pub cas_body-read :
    (text : JsonText) (e : Option String) (v : String)
    → unmarshal text cas_slots
        (text.print (obj (field "expect" (string_pointer_json e) (field "value" (str v) end))))
        (record { expect = none; value = "" })
      ≡ (record { expect = e; value = v }, none)
unfolding unmarshal
cas_body-read text e v =
    rw (text.parse-print (obj (field "expect" (string_pointer_json e) (field "value" (str v) end))))
      (expected-read e v)
