-- ===== src/Config/Values/Numbers.antt =====
-- Numbers in the settings.
use lars_study.Prelude.{
  ℕ, ◌%◌, ◌<◌, ◌≡◌, refl, ◌∙◌, true, false, [], ◌∷◌, List, Option, none, some, arith, ◌==◌,
  if◌then◌else◌, Str, ltb, Option-cases, inl, inr, decimal, read_digits, read_digits-decimal,
  StartsDigit, decimal-StartsDigit, u32_mod, ok,
}
use lars_study.Config.Trim.{is_space, trim_left}
use lars_study.Config.Trim.Padding.{trim_left_self, starts_blank}
use lars_study.Config.Load.{ConfigFile, no_sections, load}
use lars_study.Config.Load.Lines.{Line}
use lars_study.Config.Load.Written.{
  file_text, AllWritten, IsHeaded, last_value, value_at, value_at-load,
}
use lars_study.Config.Values.{long_max, clamp, parse_signed, parse_number, get_number}

digit_not_blank : (s : Str) → StartsDigit s → starts_blank s ≡ false
unfolding is_space
digit_not_blank [] h = refl
digit_not_blank (c ∷ s) h = ground arith

parse_signed_digits :
    (s : Str) → StartsDigit s → parse_signed s ≡ clamp long_max (read_digits 0 s) % u32_mod
unfolding parse_signed
parse_signed_digits [] h = absurd h
parse_signed_digits (c ∷ s) h =
    let minus : (c == b'-') ≡ false = ground arith in
    let plus : (c == b'+') ≡ false = ground arith in rw (minus, plus)

-- The value of a printed number: cut to 32 bits, or all ones where it is no `long long`.
abbrev pub stored : ℕ → ℕ
stored n = if ltb long_max n then 4294967295 else n % u32_mod

parse_number-decimal : (n : ℕ) → parse_number (decimal n) ≡ stored n
unfolding parse_number clamp
parse_number-decimal n =
    let s = decimal-StartsDigit n in
    rw
      (
        trim_left_self (decimal n) (digit_not_blank (decimal n) s),
        parse_signed_digits (decimal n) s,
        read_digits-decimal n,
      )
      (ground arith)

pub get_number_lem :
    (c : ConfigFile) (section key : Str) (n default_value : ℕ)
    → value_at c section key ≡ some (decimal n)
    → get_number c section key default_value ≡ stored n
unfolding get_number
get_number_lem c section key n default_value e = elim (Option-cases (c.map section)) [
  | inl missing ↦
      let unset : ◌≡◌ {A = Option Str} none (some (decimal n)) = (rw missing at e) in absurd (cc)
  | inr (d, found) ↦
      let value : d key ≡ some (decimal n) = (rw found at e) in
      rw (get_number, found, value) (parse_number-decimal n)
]

-- A number that a file gives a key last is read back, cut to 32 bits; one that is too large for
-- `long long` is read as 4294967295.
pub get_number-load :
    (ls : List Line) (section key : Str) (n default_value : ℕ)
    → AllWritten ls
    → IsHeaded none ls
    → last_value none ls section key none ≡ some (decimal n)
    → (c : ConfigFile) × (load (some (file_text ls)) no_sections ≡ ok (true, c))
      × (get_number c section key default_value ≡ stored n)
get_number-load ls section key n default_value h k e =
    let (c, f, values) = value_at-load ls h k in
    (c, f, get_number_lem c section key n default_value (values section key ∙ e))

parse_signed-lt : (s : Str) → parse_signed s < u32_mod
unfolding parse_signed
parse_signed-lt [] = omega arith
parse_signed-lt (c ∷ s) = ground arith

parse_number-lt : (s : Str) → parse_number s < u32_mod
unfolding parse_number
parse_number-lt s = parse_signed-lt (trim_left s)

-- Whatever the file holds, a number that is read fits `unsigned`.
pub get_number-lt :
    (c : ConfigFile) (section key : Str) (default_value : ℕ)
    → default_value < u32_mod
    → get_number c section key default_value < u32_mod
unfolding get_number
get_number-lt c section key default_value h = elim (Option-cases (c.map section)) [
  | inl missing ↦ rw (get_number, missing) h
  | inr (d, found) ↦ elim (Option-cases (d key)) [
    | inl missing ↦ rw (get_number, found, missing) h
    | inr (value, there) ↦ rw (get_number, found, there) (parse_number-lt value)
  ]
]
