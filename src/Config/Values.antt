-- ===== src/Config/Values.antt =====
-- GetNumber, GetBool, GetStringList and parseNumber of lars_reactor/src/config_file.cc.
pub mod Numbers
pub mod Items
use lars_study.Prelude.{
  ℕ, zero, suc, ◌+◌, ◌-◌, ◌%◌, Bool, true, false, ◌&&◌, ◌||◌, List, [], ◌∷◌, Option, none, some,
  ◌==◌, leb, ltb, if◌then◌else◌, length, take, drop, Str, eqb_str, codes, map, read_digits, u32_mod,
  u64_mod, Outcome, ok, stop, out_of_fuel, ◌>>=◌,
}
use lars_study.Config.Trim.{trim_left}
use lars_study.Config.Load.{ConfigFile, keys_of, get_string}

-- The largest `long long`, which a stream reads where a number is too large, and the size of the
-- smallest.
abbrev pub long_max : ℕ
long_max = 9223372036854775807

clamp : ℕ → ℕ → ℕ
clamp top n = if ltb top n then top else n

-- `iss >> v` from a text without white space in front, and the conversion to `unsigned`. Where there is
-- no number, `v` is 0.
parse_signed : Str → ℕ
parse_signed [] = 0
parse_signed (c ∷ s) =
    if c == b'-'
    then (u64_mod - clamp (long_max + 1) (read_digits 0 s)) % u32_mod
    else if c == b'+'
    then clamp long_max (read_digits 0 s) % u32_mod
    else clamp long_max (read_digits 0 (c ∷ s)) % u32_mod

-- parseNumber
pub parse_number : Str → ℕ
unfolding parse_signed clamp
parse_number s = parse_signed (trim_left s)

-- GetNumber
pub get_number : ConfigFile → Str → Str → ℕ → ℕ
unfolding parse_number
get_number c section key default_value = elim (c.map section) [
  | none ↦ default_value
  | some d ↦ elim (d key) [ none ↦ default_value | some value ↦ parse_number value ]
]

-- `tolower`
abbrev lower : ℕ → ℕ
lower c = if leb b'A' c && leb c b'Z' then c + 32 else c

-- `strcasecmp(s, t) == 0`
abbrev same_letters : Str → Str → Bool
same_letters s t = eqb_str (map lower s) (map lower t)

-- GetBool
pub get_bool : ConfigFile → Str → Str → Bool → Bool
get_bool c section key default_value = elim (c.map section) [
  | none ↦ default_value
  | some d ↦ elim (d key) [
    | none ↦ default_value
    | some value ↦ if same_letters value (codes "true") then true else default_value
  ]
]

-- A character of `sep`.
abbrev pub is_sep : ℕ → Bool
is_sep c = c == b',' || (c == b' ' || c == b'\t')

pub find_first_of : Str → Option ℕ
find_first_of [] = none
find_first_of (c ∷ s) =
    let rest : Option ℕ = elim (find_first_of s) [ none ↦ none | some i ↦ some (suc i) ] in
    if is_sep c then some 0 else rest

pub find_first_not_of : Str → Option ℕ
find_first_not_of [] = none
find_first_not_of (c ∷ s) =
    let rest : Option ℕ = elim (find_first_not_of s) [ none ↦ none | some i ↦ some (suc i) ] in
    if is_sep c then rest else some 0

-- The loop of GetStringList. `str` is the text from `start` on.
pub split_loop : ℕ → Str → Outcome (List Str)
unfolding find_first_of find_first_not_of
split_loop zero str = stop out_of_fuel
split_loop (suc fuel) str = elim (find_first_of str) [
  | none ↦ ok (str ∷ [])
  | some index ↦ elim (find_first_not_of (drop index str)) [
    | none ↦ ok (take index str ∷ [])
    | some gap ↦ split_loop fuel (drop (index + gap) str) >>= λ rest. ok (take index str ∷ rest)
  ]
]

-- GetStringList
pub get_string_list : ConfigFile → Str → Str → Outcome (List Str)
unfolding split_loop get_string
get_string_list c section key =
    let str = get_string c section key [] in split_loop (length str + 1) str
