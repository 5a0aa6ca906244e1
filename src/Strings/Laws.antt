-- ===== src/Strings/Laws.antt =====
-- The text functions on a text that was put together from its parts.
use quorum_kv.Prelude.{String, ◌≡◌, refl, ap, true, false, some, ◌==◌, eq_iff, arith, ◌≢◌, nat_eq}
use Prim.Native.String.{◌++◌, count}
use text.Mathlib.TextLemmas.{nil-append, cons-append, length-cons, length-append}
use Prim.Native.Char.{Char, code}
use quorum_kv.Strings.{after_prefix, trim_prefix, cut_suffix}

pub after_prefix-append : (p s : String) → after_prefix (p ++ s) p ≡ some s
unfolding after_prefix
after_prefix-append String.[] String.[] = refl
after_prefix-append String.[] (String.◌∷◌ c s) = rw (nil-append (String.◌∷◌ c s))
after_prefix-append (String.◌∷◌ c p) s =
    let same : nat_eq (code c) (code c) ≡ true = ground arith in
    rw (cons-append c p s, same) (after_prefix-append p s)

pub trim-prefix : (s : String) → trim_prefix ("/kv/" ++ s) "/kv/" ≡ s
unfolding trim_prefix
trim-prefix s = rw (trim_prefix, after_prefix-append "/kv/" s)

not_suffix : (c : Char) (s t : String) → String.◌∷◌ c (s ++ t) ≢ t
not_suffix c s t h = absurd (omega (arith, length-cons c (s ++ t), length-append s t, ap count h))

pub cut-suffix : (s : String) → cut_suffix (s ++ "/cas") "/cas" ≡ some s
unfolding cut_suffix
cut-suffix String.[] = refl
cut-suffix (String.◌∷◌ c s) =
    let other_ : (String.◌∷◌ c (s ++ "/cas") == "/cas") ≡ false =
      ground (arith, eq_iff (String.◌∷◌ c (s ++ "/cas")) "/cas", not_suffix c s "/cas") in
    rw (cons-append c s "/cas", other_, cut-suffix s)

pub suffix_filled : (s : String) → (s ++ "/cas" == "") ≡ false
suffix_filled s =
    ground
      (arith, eq_iff (s ++ "/cas") "", length-append s "/cas", λ (e : s ++ "/cas" ≡ ""). ap count e)
