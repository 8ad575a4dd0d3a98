-- ===== src/Config/Load.antt =====
-- Load, isSection, setPath and instance of lars_reactor/src/config_file.cc, and GetString. The file is
-- an argument: its bytes, or none where it cannot be opened.
pub mod Lines
pub mod Effects
pub mod Written
use lars_study.Prelude.{
  ℕ, suc, ◌+◌, ◌-◌, Bool, true, false, ◌||◌, not, List, [], ◌∷◌, Option, none, some, ◌==◌, leb,
  if◌then◌else◌, length, get_elem?, take, drop, Str, eqb_str, Outcome, ok, stop, undefined,
  assert_failed, ◌>>=◌,
}
use lars_study.Config.Trim.{trim}

-- `std::map<std::string, std::string>`
abbrev pub Section : Type 0
Section = Str → Option Str

abbrev pub no_keys : Section
no_keys key = none

pub record ConfigFile : Type 0 where
  pub map : Str → Option Section

abbrev pub keys_of : Option Section → Section
keys_of none = no_keys
keys_of (some d) = d

abbrev pub set_key : Section → Str → Str → Section
set_key d key value k = if eqb_str k key then some value else d k

abbrev pub set_section : ConfigFile → Str → Section → ConfigFile
set_section c section d = record { map = λ s. if eqb_str s section then some d else c.map s }

abbrev char_is : Option ℕ → ℕ → Bool
char_is none c = false
char_is (some d) c = d == c

-- isSection: the name, where the line opens a section.
pub is_section : Str → Option Str
is_section line =
    let section = trim line in
    if leb (length section) 2
    then none
    else if not (char_is (get_elem? section 0) b'[')
        || not (char_is (get_elem? section (length section - 1)) b']')
    then none
    else some (trim (take (length section - 2) (drop 1 section)))

-- `line.find(c)`
pub find : ℕ → Str → Option ℕ
find c [] = none
find c (d ∷ s) =
    let rest : Option ℕ = elim (find c s) [ none ↦ none | some i ↦ some (suc i) ] in
    if d == c then some 0 else rest

-- `m` points to the keys of a section, which is named here.
pub open_section : ConfigFile → Str → ConfigFile × Option Str
open_section c section = elim (c.map section) [
  | none ↦ (set_section c section no_keys, some section)
  | some d ↦ (c, some section)
]

-- The keys are changed through `m`, which is NULL before the first section.
pub assign : ConfigFile → Option Str → Str → Str → Outcome (ConfigFile × Option Str)
assign c none key value = stop undefined
assign c (some section) key value =
    ok (set_section c section (set_key (keys_of (c.map section)) key value), some section)

-- What follows the search for `=`.
pub load_entry : ConfigFile → Option Str → Str → ℕ → Outcome (ConfigFile × Option Str)
load_entry c m line equ_pos =
    let key = trim (take equ_pos line) in
    let value = trim (drop (equ_pos + 1) line) in
    if leb (length key) 0
    then ok (c, m)
    else if char_is (get_elem? key 0) b'#' || char_is (get_elem? key 0) b';'
    then ok (c, m)
    else assign c m key value

-- One round of the loop.
pub load_line : ConfigFile → Option Str → Str → Outcome (ConfigFile × Option Str)
unfolding is_section find load_entry
load_line c m line = elim (is_section line) [
  | some section ↦ ok (open_section c section)
  | none ↦ elim (find b'=' line) [ none ↦ ok (c, m) | some equ_pos ↦ load_entry c m line equ_pos ]
]

abbrev push_char : ℕ → List Str → List Str
push_char c [] = (c ∷ []) ∷ []
push_char c (l ∷ ls) = (c ∷ l) ∷ ls

-- What `getline` reads until the end of the file: after the last line feed there is one more line, which
-- may be empty.
pub get_lines : Str → List Str
get_lines [] = [] ∷ []
get_lines (c ∷ s) = let rest = get_lines s in if c == b'\n' then [] ∷ rest else push_char c rest

pub load_lines : ConfigFile → Option Str → List Str → Outcome (ConfigFile × Option Str)
load_lines c m [] = ok (c, m)
load_lines c m (line ∷ lines) = load_line c m line >>= λ (c', m'). load_lines c' m' lines

-- Load
pub load : Option Str → ConfigFile → Outcome (Bool × ConfigFile)
unfolding get_lines load_lines load_line
load none c = ok (false, c)
load (some file) c = load_lines c none (get_lines file) >>= λ (c', m). ok (true, c')

-- GetString
unfoldable pub get_string : ConfigFile → Str → Str → Str → Str
get_string c section key default_value = elim (c.map section) [
  | none ↦ default_value
  | some d ↦ elim (d key) [ none ↦ default_value | some value ↦ value ]
]

abbrev pub no_sections : ConfigFile
no_sections = record { map = λ section. none }

-- setPath, on `config_file::config`.
pub set_path : Option ConfigFile → Option Str → Outcome (Bool × Option ConfigFile)
set_path none file = load file no_sections >>= λ (loaded, c). ok (loaded, some c)
set_path (some c) file = stop assert_failed

-- instance
pub instance_of : Option ConfigFile → Outcome ConfigFile
instance_of none = stop assert_failed
instance_of (some c) = ok c
