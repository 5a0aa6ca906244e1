-- ===== src/Contract/Definite.antt =====
-- A response that a client classifies as a definite failure comes from a request that the cluster's
-- log has not seen.
use quorum_kv.Prelude.{
  String, ◌≡◌, refl, ap, sym, ◌∙◌, Bool, true, false, ◌||◌, Option, none, some, ◌==◌, eq_iff, arith,
  if◌then◌else◌, ◌≢◌, inl, inr, ok, Bool-cases, ℕ, nat_eq,
}
use Prim.Native.Nat.{◌^◌}
use Prim.Native.String.{slice}
use quorum_kv.Json.{JsonText, Bytes, JsonError}
use quorum_kv.Server.Http.{Response, error_json, write_err}
use quorum_kv.Harness.Client.{AttemptResult, answered, classify, ok_result, rejection, OkBody}

-- A response whose body is within the client's limit of 1 MiB, and which the client takes for a
-- definite failure.
pub record IsFail (text : JsonText) (resp : Response) : Type 0 where
  pub whole : slice resp.body 0 (2 ^ 20) ≡ resp.body
  pub class : (classify text (answered resp.status (ok resp.body))).class ≡ "fail"

-- The codes by which the server says that a request was not applied.
abbrev pub definite : String → Bool
definite e = e == "no_leader" || e == "not_leader" || e == "bad_request"

classify-error :
    (text : JsonText) (status : ℕ) (code m : String)
    → nat_eq status 200 ≡ false
    → slice (text.print (error_json code m)) 0 (2 ^ 20) ≡ text.print (error_json code m)
    → classify text (answered status (ok (text.print (error_json code m)))) ≡ rejection code
unfolding classify
classify-error text status code m s whole = rw (whole, s, text.parse-print (error_json code m))

unknown_not_fail : ◌≢◌ {A = String} "unknown" "fail"
unknown_not_fail = ground (arith, eq_iff "unknown" "fail")

ok_not_fail : ◌≢◌ {A = String} "ok" "fail"
ok_not_fail = ground (arith, eq_iff "ok" "fail")

rejection-definite : (code : String) → (rejection code).class ≡ "fail" → definite code ≡ true
rejection-definite code h = elim (Bool-cases (definite code)) [
  | inl yes_ ↦ yes_
  | inr no_ ↦ absurd (unknown_not_fail (sym (rw no_) ∙ h))
]

-- The client reads the code of an error response back.
class-error :
    (text : JsonText) (status : ℕ) (code m : String)
    → nat_eq status 200 ≡ false
    → IsFail text (write_err text status code m)
    → definite code ≡ true
class-error text status code m s f = rejection-definite code (
    ap (λ (a : AttemptResult). a.class) (sym (classify-error text status code m s f.whole))
    ∙ f.class)

ok_result-class : (d : OkBody × Option JsonError) → (ok_result d).class ≢ "fail"
ok_result-class (b, some e) = unknown_not_fail
ok_result-class (b, none) = ok_not_fail

-- A 200 is never taken for a failure.
pub class-ok :
    (text : JsonText) (body : Bytes) → ¬ IsFail text (record { status = 200; body = body })
unfolding classify
class-ok text body f = ok_result-class _ f.class

-- What is known of the cluster: `log` is what the log holds or may come to hold of proposals.
module _ {W L : Type 0} (text : JsonText) (log : W → L) where
  -- From the state `w`, the response `p.0` with the state `p.1` is no definite failure, or the log
  -- is the same.
  pub record Keeps (w : W) (p : Response × W) : Type 0 where
    pub keep : IsFail text p.0 → log p.1 ≡ log w

  pub Keeps-if :
      (w : W) (b : Bool) (p q : Response × W) → Keeps w p → Keeps w q → Keeps w (if b then p else q)
  Keeps-if w true p q hp hq = hp
  Keeps-if w false p q hp hq = hq

  pub Keeps-same : (w : W) (resp : Response) → Keeps w (resp, w)
  Keeps-same w resp = record { keep = λ f. refl }

  pub Keeps-error :
      (w w' : W) (status : ℕ) (code m : String)
      → nat_eq status 200 ≡ false
      → definite code ≡ false
      → Keeps w (write_err text status code m, w')
  Keeps-error w w' status code m s d = record {
    keep = λ f. cc (class-error text status code m s f, d);
  }

  pub Keeps-ok : (w w' : W) (body : Bytes) → Keeps w (record { status = 200; body = body }, w')
  Keeps-ok w w' body = record { keep = λ f. absurd (class-ok text body f) }

  pub Keeps-from : (w w' : W) (p : Response × W) → log w' ≡ log w → Keeps w' p → Keeps w p
  Keeps-from w w' p e k = record { keep = λ f. k.keep f ∙ e }
