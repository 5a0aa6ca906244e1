-- ===== src/Fmt.antt =====
-- Go's package fmt, as far as the source uses it: %d, %06x and %v of a truth value.
use quorum_kv.Prelude.{
  String, ◌≡◌, refl, Bool, true, false, if◌then◌else◌, arith, ℕ, zero, suc, ◌+◌, ◌/◌, ◌%◌, ◌<◌,
  nat_eq,
}
use quorum_kv.Prelude.Int.{ℤ, pos, negsuc}
use Prim.Native.String.{◌++◌, slice}
use mathlib.Core.Logic.{dite}
use mathlib.Core.WellFounded.{Acc}
use native.Mathlib.Decide.{dec_lt}

Acc-below : (k n : ℕ) → n < k → Acc ◌<◌ n
Acc-below zero n h = absurd (omega arith)
Acc-below (suc k) n h = Acc.intro n (λ m lt. Acc-below k m (omega arith))

digit : ℕ → String
digit d = slice "0123456789abcdef" d (d + 1)

-- The digits of `n` before those that are there.
digits : (n : ℕ) → Acc ◌<◌ n → String → String
digits n (Acc.intro _ smaller) out =
    dite (dec_lt 0 n)
      (λ h. digits (n / 10) (smaller (n / 10) (omega arith)) (digit (n % 10) ++ out)) (λ _. out)

-- %d
unfoldable pub decimal : ℕ → String
unfolding digits digit Acc-below dec_lt
decimal n = if nat_eq n 0 then "0" else digits n (Acc-below (suc n) n (omega arith)) ""

unfoldable pub decimal_ℤ : ℤ → String
unfolding decimal
decimal_ℤ (pos n) = decimal n
decimal_ℤ (negsuc n) = "-" ++ decimal (suc n)

-- the last `k` hexadecimal digits
hex_digits : ℕ → ℕ → String
hex_digits zero n = ""
hex_digits (suc k) n = hex_digits k (n / 16) ++ digit (n % 16)

-- %06x, of a number below 2 ^ 24
unfoldable pub hex6 : ℕ → String
unfolding hex_digits digit
hex6 n = hex_digits 6 n

-- %v of a truth value
unfoldable pub text_of_bool : Bool → String
text_of_bool true = "true"
text_of_bool false = "false"

decimal_8105 : decimal_ℤ (pos 8105) ≡ "8105"
unfolding decimal_ℤ
decimal_8105 = refl

decimal_negative : decimal_ℤ (negsuc 9) ≡ "-10"
unfolding decimal_ℤ
decimal_negative = refl

hex6_small : hex6 48879 ≡ "00beef"
unfolding hex6
hex6_small = refl
