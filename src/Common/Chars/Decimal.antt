-- ===== src/Common/Chars/Decimal.antt =====
-- About numbers that are printed in decimal.
use Prim.Native.Nat.{ℕ, zero, suc, ◌+◌, ◌*◌, ◌-◌, ◌/◌, ◌%◌, ◌^◌, ◌<◌, ◌≤◌}
use Prim.Native.Nat.pow
use mathlib.Core.Path.{◌≡◌, refl, ap, ◌∙◌}
use mathlib.Core.Bool.{false}
use mathlib.Core.Option.{some}
use mathlib.Core.List.{[], ◌∷◌}
use mathlib.Core.Logic.{inl, inr}
use native.Mathlib.Omega.{arith}
use fidelity.Common.Tests.{ltb, ◌==◌, if◌then◌else◌, Bool-cases, ==→eq, lt→ltb}
use fidelity.Common.Lists.{is_empty, All}
use fidelity.Common.Text.{decimal, digits}
use fidelity.Common.Chars.{Chars, to_digit, digits_from, unsigned}

abbrev pub IsDigits : Chars → Type 0
IsDigits = All (λ c. (48 ≤ c) × (c ≤ 57))

to_digit_decimal : (d : ℕ) → d < 10 → to_digit 10 (48 + d) ≡ some d
unfolding to_digit
to_digit_decimal d h = ground arith

-- The character of a digit, as the printer writes it.
abbrev digit_char : ℕ → ℕ
digit_char d = if ltb d 10 then 48 + d else 97 + d - 10

digit_char_decimal : (d : ℕ) → d < 10 → digit_char d ≡ 48 + d
digit_char_decimal d h = ground arith

step :
    (limit n d : ℕ) (printed : Chars)
    → d < 10
    → n * 10 + d < limit
    → digits_from 10 limit n (digit_char d ∷ printed) ≡ digits_from 10 limit (n * 10 + d) printed
unfolding digits_from
step limit n d printed h fits =
    rw (digit_char_decimal d h, to_digit_decimal d h, lt→ltb (n * 10 + d) limit fits) refl

digits_from-digits :
    (fuel n limit : ℕ) (printed : Chars)
    → n < 10 ^ fuel
    → n < limit
    → digits_from 10 limit 0 (digits 10 fuel n printed) ≡ digits_from 10 limit n printed
unfolding digits
digits_from-digits zero n limit printed h fits =
    let z : n ≡ 0 = omega (arith, rw (pow.zero 10) at h) in rw z refl
digits_from-digits (suc fuel) n limit printed h fits =
    let small : n / 10 < 10 ^ fuel = omega (arith, rw (pow.suc 10 fuel) at h) in
    let whole : n / 10 * 10 + n % 10 ≡ n = omega arith in
    let last : digits_from 10 limit (n / 10) (digit_char (n % 10) ∷ printed)
        ≡ digits_from 10 limit n printed =
      step limit (n / 10) (n % 10) printed (omega arith) (omega arith)
      ∙ ap (λ v. digits_from 10 limit v printed) whole in
    elim (Bool-cases (n / 10 == 0)) [
      | inl e ↦ rw e (
          ap (λ v. digits_from 10 limit v (digit_char (n % 10) ∷ printed))
            (omega (arith, ==→eq (n / 10) 0 e))
          ∙ last)
      | inr e ↦ rw e (
          digits_from-digits fuel (n / 10) limit (digit_char (n % 10) ∷ printed) small (omega arith)
          ∙ last)
    ]

digits-IsDigits :
    (fuel n : ℕ) (printed : Chars) → IsDigits printed → IsDigits (digits 10 fuel n printed)
unfolding digits
digits-IsDigits zero n printed h = h
digits-IsDigits (suc fuel) n printed h =
    let head : (48 ≤ digit_char (n % 10)) × (digit_char (n % 10) ≤ 57) =
      rw (digit_char_decimal (n % 10) (omega arith)) (omega arith) in
    elim (Bool-cases (n / 10 == 0)) [
      | inl e ↦ rw e (head, h)
      | inr e ↦ rw e (digits-IsDigits fuel (n / 10) (digit_char (n % 10) ∷ printed) (head, h))
    ]

digits_filled :
    (fuel n : ℕ) (printed : Chars)
    → is_empty printed ≡ false
    → is_empty (digits 10 fuel n printed) ≡ false
unfolding digits
digits_filled zero n printed h = h
digits_filled (suc fuel) n printed h = elim (Bool-cases (n / 10 == 0)) [
  | inl e ↦ rw e refl
  | inr e ↦ rw e (digits_filled fuel (n / 10) (digit_char (n % 10) ∷ printed) refl)
]

decimal_filled : (n : ℕ) → is_empty (decimal n) ≡ false
unfolding decimal digits
decimal_filled n = elim (Bool-cases (n / 10 == 0)) [
  | inl e ↦ rw e refl
  | inr e ↦ rw e (digits_filled 63 (n / 10) (digit_char (n % 10) ∷ []) refl)
]

pub decimal-IsDigits : (n : ℕ) → IsDigits (decimal n)
unfolding decimal
decimal-IsDigits n = digits-IsDigits 64 n [] tt

unsigned-IsDigits :
    (limit : ℕ) (text : Chars)
    → IsDigits text
    → is_empty text ≡ false
    → unsigned 10 limit text ≡ digits_from 10 limit 0 text
unfolding unsigned
unsigned-IsDigits limit [] h e = absurd cc
unsigned-IsDigits limit (c ∷ text) h e =
    let other : (c == 43) ≡ false = ground (arith, h.0) in rw other refl

pub unsigned-decimal :
    (limit n : ℕ) → n < limit → n < 2 ^ 64 → unsigned 10 limit (decimal n) ≡ some n
unsigned-decimal limit n fits small =
    unsigned-IsDigits limit (decimal n) (decimal-IsDigits n) (decimal_filled n)
    ∙ unfold decimal in
      digits_from-digits 64 n limit [] (omega arith) fits ∙ unfold digits_from in refl
