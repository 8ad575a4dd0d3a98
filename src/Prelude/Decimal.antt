-- ===== src/Prelude/Decimal.antt =====
-- Numbers in decimal, as printf and streams write and read them.
use Prim.Native.Nat.{ℕ, zero, suc, ◌+◌, ◌-◌, ◌*◌, ◌/◌, ◌%◌, ◌≤◌, ◌<◌}
use mathlib.Core.Path.{◌≡◌, ap, ◌∙◌}
use mathlib.Core.Logic.{inl, inr}
use mathlib.Core.Bool.{Bool, true, ◌&&◌}
use mathlib.Core.List.{[], ◌∷◌}
use native.Mathlib.Omega.{arith}
use lars_study.Prelude.Tests.{◌==◌, leb, if◌then◌else◌, Bool-cases}
use lars_study.Prelude.Lists.{length}
use lars_study.Prelude.Text.{Str}
use lars_study.Prelude.Int.{ℤ, pos, negsuc}

abbrev pub is_digit : ℕ → Bool
is_digit c = leb b'0' c && leb c b'9'

-- The digits of a number before `out`, the last one first. The fuel is for one digit each.
digits_onto : ℕ → ℕ → Str → Str
digits_onto zero n out = out
digits_onto (suc fuel) n out =
    let here = (b'0' + n % 10) ∷ out in
    let more = digits_onto fuel (n / 10) here in if n / 10 == 0 then here else more

-- %u
unfoldable pub decimal : ℕ → Str
unfolding digits_onto
decimal n = digits_onto (suc n) n []

-- %d and %ld
unfoldable pub print_int : ℤ → Str
print_int (pos n) = decimal n
print_int (negsuc n) = b'-' ∷ decimal (suc n)

-- The number that the digits at the front of a text make up, behind those that make up `n`.
unfoldable pub read_digits : ℕ → Str → ℕ
read_digits n [] = n
read_digits n (c ∷ s) =
    let more = read_digits (n * 10 + (c - b'0')) s in if is_digit c then more else n

read_digits_digit :
    (n d : ℕ) (s : Str) → d < 10 → read_digits n ((b'0' + d) ∷ s) ≡ read_digits (n * 10 + d) s
unfolding read_digits
read_digits_digit n d s h =
    let yes_digit : is_digit (48 + d) ≡ true = ground arith in
    let value : 48 + d - 48 ≡ d = omega arith in rw (yes_digit, value)

read_digits-digits_onto :
    (fuel n : ℕ) (out : Str) → n < fuel → read_digits 0 (digits_onto fuel n out) ≡ read_digits n out
unfolding digits_onto
read_digits-digits_onto zero n out h = absurd (omega arith)
read_digits-digits_onto (suc fuel) n out h = elim (Bool-cases (n / 10 == 0)) [
  | inl last ↦
      let e : 0 * 10 + n % 10 ≡ n = ground arith in
      rw last (read_digits_digit 0 (n % 10) out (omega arith) ∙ ap (λ k. read_digits k out) e)
  | inr more ↦
      let e : n / 10 * 10 + n % 10 ≡ n = omega arith in
      rw more (
        read_digits-digits_onto fuel (n / 10) ((b'0' + n % 10) ∷ out) (ground arith)
        ∙ read_digits_digit (n / 10) (n % 10) out (omega arith)
        ∙ ap (λ k. read_digits k out) e)
]

-- What is printed is read back.
pub read_digits-decimal : (n : ℕ) → read_digits 0 (decimal n) ≡ n
unfolding decimal read_digits
read_digits-decimal n = read_digits-digits_onto (suc n) n [] (omega arith)

unfoldable pub power_of_ten : ℕ → ℕ
power_of_ten zero = 1
power_of_ten (suc k) = 10 * power_of_ten k

length-digits_onto :
    (fuel k n : ℕ) (out : Str)
    → n < power_of_ten (suc k)
    → length (digits_onto fuel n out) ≤ suc k + length out
unfolding digits_onto power_of_ten
length-digits_onto zero k n out h = omega arith
length-digits_onto (suc fuel) zero n out h = ground arith
length-digits_onto (suc fuel) (suc k) n out h =
    let ih = length-digits_onto fuel k (n / 10) ((b'0' + n % 10) ∷ out) (omega arith) in
    elim (Bool-cases (n / 10 == 0)) [
      | inl last ↦ rw last (omega arith)
      | inr more ↦ rw more (omega (arith, ih))
    ]

-- A number of few digits is printed short.
pub length-decimal : (k n : ℕ) → n < power_of_ten (suc k) → length (decimal n) ≤ suc k
unfolding decimal
length-decimal k n h = omega (arith, length-digits_onto (suc n) k n [] h)

-- A printed number starts with a digit.
abbrev pub StartsDigit : Str → Type 0
StartsDigit [] = ⊥
StartsDigit (c ∷ s) = is_digit c ≡ true

digit_is : (n : ℕ) → is_digit (b'0' + n % 10) ≡ true
digit_is n = ground arith

digits_onto-StartsDigit :
    (fuel n : ℕ) (out : Str) → StartsDigit out → StartsDigit (digits_onto fuel n out)
unfolding digits_onto
digits_onto-StartsDigit zero n out h = h
digits_onto-StartsDigit (suc fuel) n out h = elim (Bool-cases (n / 10 == 0)) [
  | inl last ↦ rw last (digit_is n)
  | inr more ↦ rw more (digits_onto-StartsDigit fuel (n / 10) ((b'0' + n % 10) ∷ out) (digit_is n))
]

pub decimal-StartsDigit : (n : ℕ) → StartsDigit (decimal n)
unfolding decimal digits_onto
decimal-StartsDigit n = elim (Bool-cases (n / 10 == 0)) [
  | inl last ↦ rw last (digit_is n)
  | inr more ↦ rw more (digits_onto-StartsDigit n (n / 10) ((b'0' + n % 10) ∷ []) (digit_is n))
]
