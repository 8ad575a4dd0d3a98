-- ===== src/Config/Load/Written.antt =====
-- What the settings of a whole file are.
use lars_study.Prelude.{
  ◌≡◌, refl, ap, ◌∙◌, inl, inr, Bool, true, false, ◌&&◌, List, [], ◌∷◌, ◌++◌, Option, none, some,
  append_assoc, All, if◌then◌else◌, Str, eqb_str, eqb_str_eq, Bool-cases, Outcome, ok, stop,
  undefined, arith,
}
use lars_study.Config.Load.{
  ConfigFile, set_section, set_key, keys_of, no_sections, open_section, assign, get_lines,
  load_line, load_lines, load, get_string,
}
use lars_study.Config.Load.Lines.{
  Line, header, entry, comment, blank, text, Lacks, IsWritten, is_section_blank,
}
use lars_study.Config.Load.Effects.{apply, load_line_lem}

abbrev pub file_text : List Line → Str
file_text [] = []
file_text (l ∷ ls) = text l ++ b'\n' ∷ file_text ls

-- The lines are written, each on a line of its own.
abbrev pub AllWritten : List Line → Type 0
AllWritten ls = All (λ l. IsWritten l × Lacks b'\n' (text l)) ls

-- No key stands before the first section.
abbrev pub IsHeaded : Option Str → List Line → Type 0
IsHeaded m [] = Unit {0}
IsHeaded m (header before left name right after ∷ ls) = IsHeaded (some name) ls
IsHeaded none (entry before key left right value after ∷ ls) = ⊥
IsHeaded (some s) (entry before key left right value after ∷ ls) = IsHeaded (some s) ls
IsHeaded m (comment before mark rest ∷ ls) = IsHeaded m ls
IsHeaded m (blank before ∷ ls) = IsHeaded m ls

abbrev pub is_open : Option Str → Str → Bool
is_open none s = false
is_open (some n) s = eqb_str s n

-- The value that the lines give a key of a section last, or the one it has already.
abbrev pub last_value : Option Str → List Line → Str → Str → Option Str → Option Str
last_value m [] s k v = v
last_value m (header before left name right after ∷ ls) s k v = last_value (some name) ls s k v
last_value m (entry before key left right value after ∷ ls) s k v =
    last_value m ls s k (if is_open m s && eqb_str k key then some value else v)
last_value m (comment before mark rest ∷ ls) s k v = last_value m ls s k v
last_value m (blank before ∷ ls) s k v = last_value m ls s k v

abbrev pub value_at : ConfigFile → Str → Str → Option Str
value_at c s k = keys_of (c.map s) k

abbrev pub get_or : Option Str → Str → Str
get_or none d = d
get_or (some v) d = v

pub get_string_lem : (c : ConfigFile) (s k d : Str) → get_string c s k d ≡ get_or (value_at c s k) d
unfolding get_string
get_string_lem c s k d = ground arith

value_at-open_section :
    (c : ConfigFile) (name s k : Str) → value_at (open_section c name).0 s k ≡ value_at c s k
unfolding open_section
value_at-open_section c name s k = ground (arith, eqb_str_eq s name)

-- The settings after an assignment.
abbrev assigned : ConfigFile → Str → Str → Str → ConfigFile
assigned c name key value = set_section c name (set_key (keys_of (c.map name)) key value)

value_at-assigned :
    (c : ConfigFile) (name key value s k : Str)
    → value_at (assigned c name key value) s k
      ≡ (if eqb_str s name && eqb_str k key then some value else value_at c s k)
value_at-assigned c name key value s k = elim (Bool-cases (eqb_str s name)) [
  | inl same ↦ let e = eqb_str_eq s name same in rw (same, e)
  | inr other ↦ rw other
]

get_lines_cons : (l rest : Str) → Lacks b'\n' l → get_lines (l ++ b'\n' ∷ rest) ≡ l ∷ get_lines rest
unfolding get_lines
get_lines_cons [] rest h = refl
get_lines_cons (c ∷ l) rest h = rw (h.0, get_lines_cons l rest h.1)

open_section-eq :
    (c : ConfigFile) (name : Str)
    → ◌≡◌ {A = Outcome (ConfigFile × Option Str)}
        (ok (open_section c name))
        (ok ((open_section c name).0, some name))
unfolding open_section
open_section-eq c name = ground arith

-- Loading lines ends with their last values over those that were there.
abbrev Loads : ConfigFile → Option Str → List Line → Type 0
Loads c m ls =
    (c' : ConfigFile) × (m' : Option Str) × (load_lines c m (get_lines (file_text ls))
      ≡ ok (c', m'))
    × ((s k : Str) → value_at c' s k ≡ last_value m ls s k (value_at c s k))

load_lines_cons :
    (c c' : ConfigFile) (m m' : Option Str) (l : Line) (rest : Str)
    → IsWritten l × Lacks b'\n' (text l)
    → apply c m l ≡ ok (c', m')
    → load_lines c m (get_lines (text l ++ b'\n' ∷ rest)) ≡ load_lines c' m' (get_lines rest)
unfolding load_lines
load_lines_cons c c' m m' l rest (written, one) e =
    rw (get_lines_cons (text l) rest one, load_line_lem c m l written, e)

load_lines_lem :
    (ls : List Line) (c : ConfigFile) (m : Option Str)
    → AllWritten ls
    → IsHeaded m ls
    → Loads c m ls
unfolding load_lines get_lines apply assign load_line
load_lines_lem [] c m h k = (c, m, rw (load_lines, load_line, is_section_blank [] tt), λ s k. refl)
load_lines_lem (header before left name right after ∷ ls) c m h k =
    let l = header before left name right after in
    let d = (open_section c name).0 in
    let (c', m', e, values) = load_lines_lem ls d (some name) h.1 k in
    (
      c',
      m',
      load_lines_cons c d m (some name) l (file_text ls) h.0 (open_section-eq c name) ∙ e,
      λ s k. values s k ∙ ap (last_value (some name) ls s k) (value_at-open_section c name s k),
    )
load_lines_lem (entry before key left right value after ∷ ls) c none h k = absurd k
load_lines_lem (entry before key left right value after ∷ ls) c (some n) h k =
    let l = entry before key left right value after in
    let d = assigned c n key value in
    let (c', m', e, values) = load_lines_lem ls d (some n) h.1 k in
    (
      c',
      m',
      load_lines_cons c d (some n) (some n) l (file_text ls) h.0 refl ∙ e,
      λ s k. values s k ∙ ap (last_value (some n) ls s k) (value_at-assigned c n key value s k),
    )
load_lines_lem (comment before mark rest ∷ ls) c m h k =
    let (c', m', e, values) = load_lines_lem ls c m h.1 k in
    (c', m', load_lines_cons c c m m (comment before mark rest) (file_text ls) h.0 refl ∙ e, values)
load_lines_lem (blank before ∷ ls) c m h k =
    let (c', m', e, values) = load_lines_lem ls c m h.1 k in
    (c', m', load_lines_cons c c m m (blank before) (file_text ls) h.0 refl ∙ e, values)

pub value_at-load :
    (ls : List Line)
    → AllWritten ls
    → IsHeaded none ls
    → (c : ConfigFile) × (load (some (file_text ls)) no_sections ≡ ok (true, c))
      × ((section key : Str) → value_at c section key ≡ last_value none ls section key none)
unfolding load
value_at-load ls h k =
    let (c, m, e, values) = load_lines_lem ls no_sections none h k in
    (c, rw e, λ section key. values section key)

-- A file of sections, keys with values, comments and white space, each on a line of its own and no key
-- before the first section, is loaded, and each key of each section then has the value that the file
-- gives it last, in any of the parts of the section; a key without one has the default value.
pub get_string-load :
    (ls : List Line)
    → AllWritten ls
    → IsHeaded none ls
    → (c : ConfigFile) × (load (some (file_text ls)) no_sections ≡ ok (true, c))
      × ((section key default_value : Str)
          → get_string c section key default_value
            ≡ get_or (last_value none ls section key none) default_value)
get_string-load ls h k =
    let (c, e, values) = value_at-load ls h k in
    (
      c,
      e,
      λ section key default_value.
          get_string_lem c section key default_value
          ∙ ap (λ v. get_or v default_value) (values section key),
    )

-- Comments and white space only.
abbrev pub IsQuiet : Line → Type 0
IsQuiet (comment before mark rest) = Unit {0}
IsQuiet (blank before) = Unit {0}
IsQuiet l = ⊥

apply_quiet : (c : ConfigFile) (l : Line) → IsQuiet l → apply c none l ≡ ok (c, none)
unfolding apply
apply_quiet c (comment before mark rest) q = refl
apply_quiet c (blank before) q = refl
apply_quiet c (header before left name right after) q = absurd q
apply_quiet c (entry before key left right value after) q = absurd q

load_lines_quiet :
    (ls : List Line) (c : ConfigFile) (rest : Str)
    → AllWritten ls
    → All IsQuiet ls
    → load_lines c none (get_lines (file_text ls ++ rest)) ≡ load_lines c none (get_lines rest)
unfolding load_lines
load_lines_quiet [] c rest h q = refl
load_lines_quiet (l ∷ ls) c rest h q =
    ap (λ t. load_lines c none (get_lines t)) (append_assoc (text l) (b'\n' ∷ file_text ls) rest)
    ∙ load_lines_cons c c none none l (file_text ls ++ rest) h.0 (apply_quiet c l q.0)
    ∙ load_lines_quiet ls c rest h.1 q.1

-- Where only comments and white space stand before a key with a value, so that no section is open, loading
-- the file writes through a null pointer, whatever comes behind.
pub load_unheaded :
    (ls : List Line) (before key left right value after rest : Str)
    → AllWritten ls
    → All IsQuiet ls
    → IsWritten (entry before key left right value after)
    → Lacks b'\n' (text (entry before key left right value after))
    → load
        (some (file_text ls ++ (text (entry before key left right value after) ++ b'\n' ∷ rest)))
        no_sections
      ≡ stop undefined
unfolding load load_lines apply assign
load_unheaded ls before key left right value after rest h q written one =
    let l = entry before key left right value after in
    rw (
      load_lines_quiet ls no_sections (text l ++ b'\n' ∷ rest) h q,
      get_lines_cons (text l) rest one,
      load_line_lem no_sections none l written,
    )
