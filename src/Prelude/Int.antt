-- ===== src/Prelude/Int.antt =====
-- The fixed-width integers of the sources: `int` (32 bits, two's complement), `size_t` and
-- `uint64_t` (64 bits). A `size_t` is a number below 2^64, and its arithmetic wraps.
use Prim.Native.Nat.{ℕ, suc, ◌+◌, ◌-◌, ◌%◌, ◌≤◌, ◌<◌}
use mathlib.Core.Path.{◌≡◌}
use mathlib.Core.Bool.{Bool, true, false}
use native.Mathlib.Omega.{arith}
use lars_study.Prelude.Tests.{ltb, ◌==◌, if◌then◌else◌}

-- `negsuc n` is -(n + 1).
pub data ℤ : Type 0 where
  pos : ℕ → ℤ
  negsuc : ℕ → ℤ

abbrev pub u32_mod : ℕ
u32_mod = 4294967296

abbrev pub int_bound : ℕ
int_bound = 2147483648

abbrev pub u64_mod : ℕ
u64_mod = 18446744073709551616

-- The conversion of an unsigned number to `int`.
unfoldable pub to_int : ℕ → ℤ
to_int n = let m = n % u32_mod in if ltb m int_bound then pos m else negsuc (u32_mod - suc m)

-- The value of an `int` that is known not to be negative.
abbrev pub natural : ℤ → ℕ
natural (pos n) = n
natural (negsuc n) = 0

-- The conversion of an `int` to `uint32_t` and to `size_t`, by sign extension.
unfoldable pub to_u32 : ℤ → ℕ
to_u32 (pos n) = n % u32_mod
to_u32 (negsuc n) = u32_mod - suc (n % u32_mod)

unfoldable pub to_size : ℤ → ℕ
to_size (pos n) = n % u64_mod
to_size (negsuc n) = u64_mod - suc (n % u64_mod)

unfoldable pub add64 : ℕ → ℕ → ℕ
add64 a b = (a + b) % u64_mod

pub sub64 : ℕ → ℕ → ℕ
sub64 a b = (a + u64_mod - b) % u64_mod

-- a < b on `int`.
abbrev pub ltb_ℤ : ℤ → ℤ → Bool
ltb_ℤ (pos a) (pos b) = ltb a b
ltb_ℤ (pos a) (negsuc b) = false
ltb_ℤ (negsuc a) (pos b) = true
ltb_ℤ (negsuc a) (negsuc b) = ltb b a

abbrev pub eqb_ℤ : ℤ → ℤ → Bool
eqb_ℤ (pos a) (pos b) = a == b
eqb_ℤ (pos a) (negsuc b) = false
eqb_ℤ (negsuc a) (pos b) = false
eqb_ℤ (negsuc a) (negsuc b) = a == b

-- The values of an `int`.
abbrev pub IsInt : ℤ → Type 0
IsInt (pos n) = n < int_bound
IsInt (negsuc n) = n < int_bound

pub to_int_small : (n : ℕ) → n < int_bound → to_int n ≡ pos n
unfolding to_int
to_int_small n h = ground arith

pub to_int_big : (n : ℕ) → int_bound ≤ n → n < u32_mod → to_int n ≡ negsuc (u32_mod - suc n)
unfolding to_int
to_int_big n h k = ground arith

pub to_size_pos : (n : ℕ) → n < int_bound → to_size (pos n) ≡ n
unfolding to_size
to_size_pos n h = omega arith

pub to_int-to_u32 : (z : ℤ) → IsInt z → to_int (to_u32 z) ≡ z
unfolding to_int to_u32
to_int-to_u32 (pos n) h = ground arith
to_int-to_u32 (negsuc n) h = ground arith

pub to_u32_pos : (n : ℕ) → n < int_bound → to_u32 (pos n) ≡ n
unfolding to_u32
to_u32_pos n h = omega arith

pub to_u32-lt : (z : ℤ) → to_u32 z < u32_mod
unfolding to_u32
to_u32-lt (pos n) = omega arith
to_u32-lt (negsuc n) = omega arith

pub add64_lt : (a b : ℕ) → a + b < u64_mod → add64 a b ≡ a + b
unfolding add64
add64_lt a b h = omega arith

pub add64_small : (a b : ℕ) → a + b < int_bound → add64 a b ≡ a + b
unfolding add64
add64_small a b h = omega arith

pub sub64_small : (a b : ℕ) → b ≤ a → a < int_bound → sub64 a b ≡ a - b
unfolding sub64
sub64_small a b h k = omega arith

pub eqb_ℤ_eq : (a b : ℤ) → eqb_ℤ a b ≡ true → a ≡ b
eqb_ℤ_eq (pos a) (pos b) h = ground arith
eqb_ℤ_eq (pos a) (negsuc b) h = absurd (cc)
eqb_ℤ_eq (negsuc a) (pos b) h = absurd (cc)
eqb_ℤ_eq (negsuc a) (negsuc b) h = ground arith

pub eqb_ℤ_refl : (a : ℤ) → eqb_ℤ a a ≡ true
eqb_ℤ_refl (pos a) = ground arith
eqb_ℤ_refl (negsuc a) = ground arith
