-- ===== src/Config/Load/Effects.antt =====
-- What a written line does to the settings.
use lars_study.Prelude.{
  ℕ, suc, ◌+◌, ◌≡◌, ap, sym, ◌∙◌, ◌⊎◌, inl, inr, Bool, some, refl, true, false, [], ◌∷◌, ◌++◌,
  Option, none, append_assoc, arith, ◌==◌, ◌<◌, length, length-append, take-append, Str, Bool-cases,
  Outcome, ok,
}
use lars_study.Config.Trim.{is_space}
use lars_study.Config.Trim.Padding.{AllSpace, IsTrimmed, trim_pad, trim_first}
use lars_study.Config.Load.{
  no_sections, load, set_path, instance_of, ConfigFile, is_section, open_section, assign,
  load_entry, load_line,
}
use lars_study.Config.Load.Lines.{
  Line, header, entry, comment, blank, text, Lacks, IsName, IsMark, IsWritten, find_lem, find-none,
  drop_through, solid_mark, is_section_first, is_section_blank, is_section_bracketed,
}

-- A section is opened, a key is set in the section that is open, and the rest changes nothing.
unfoldable pub apply : ConfigFile → Option Str → Line → Outcome (ConfigFile × Option Str)
apply c m (header before left name right after) = ok (open_section c name)
apply c m (entry before key left right value after) = assign c m key value
apply c m (comment before mark rest) = ok (c, m)
apply c m (blank before) = ok (c, m)

pub Lacks-append : (c : ℕ) (s t : Str) → Lacks c s → Lacks c t → Lacks c (s ++ t)
Lacks-append c [] t h k = k
Lacks-append c (d ∷ s) t h k = (h.0, Lacks-append c s t h.1 k)

AllSpace-Lacks : (s : Str) → AllSpace s → Lacks b'=' s
unfolding is_space
AllSpace-Lacks [] h = tt
AllSpace-Lacks (c ∷ s) h = (ground arith, AllSpace-Lacks s h.1)

name_length : (left name right : Str) → IsName name → 0 < length (left ++ (name ++ right))
name_length left [] right h = absurd h
name_length left (c ∷ name) right h = omega (arith, length-append left (c ∷ name ++ right))

name-IsTrimmed : (name : Str) → IsName name → IsTrimmed name
name-IsTrimmed [] h = absurd h
name-IsTrimmed (c ∷ name) h = h

load_line-header :
    (c : ConfigFile) (m : Option Str) (before left name right after : Str)
    → IsWritten (header before left name right after)
    → load_line c m (text (header before left name right after)) ≡ ok (open_section c name)
unfolding load_line
load_line-header c m before left name right after (hb, hl, hr, ha, hn) = rw (
  load_line,
  is_section_bracketed before (left ++ (name ++ right)) after hb ha
      (name_length left name right hn),
  trim_pad left name right hl (name-IsTrimmed name hn) hr,
)

load_line-entry :
    (c : ConfigFile) (m : Option Str) (before key left right value after : Str)
    → IsWritten (entry before key left right value after)
    → load_line c m (text (entry before key left right value after)) ≡ assign c m key value
unfolding load_line load_entry
load_line-entry c m before [] left right value after h = absurd (h.5)
load_line-entry c m before (k ∷ key) left right value after (hb, hl, hr, ha, hk, hs, he, hv) =
    let p = before ++ (k ∷ key ++ left) in
    let rest = right ++ (value ++ after) in
    let no_section : is_section (p ++ b'=' ∷ rest) ≡ none =
      ap is_section (append_assoc before (k ∷ key ++ left) (b'=' ∷ rest))
      ∙ is_section_first before k ((key ++ left) ++ b'=' ∷ rest) hb hk.0 hs.0 in
    let no_equals : Lacks b'=' p =
      Lacks-append b'=' before (k ∷ key ++ left) (AllSpace-Lacks before hb)
        (Lacks-append b'=' (k ∷ key) left he (AllSpace-Lacks left hl)) in
    let next : length p + 1 ≡ suc (length p) = omega arith in
    rw
      (
        load_line,
        no_section,
        find_lem b'=' p rest no_equals,
        take-append p (b'=' ∷ rest),
        next,
        drop_through p b'=' rest,
        trim_pad before (k ∷ key) left hb hk hl,
        trim_pad right value after hr hv ha,
        hs.1,
        hs.2,
      )
      (ground arith)

equals_of : (c : ℕ) → (c == b'=') ≡ true → c ≡ b'='
equals_of c h = ground arith

-- The first equals sign of a text, if it has one.
abbrev EqualsSplit : Str → Type 0
EqualsSplit s = Lacks b'=' s ⊎ ((a b : Str) × (s ≡ a ++ b'=' ∷ b) × Lacks b'=' a)

EqualsSplit-cons : (c : ℕ) (s : Str) → (c == b'=') ≡ false → EqualsSplit s → EqualsSplit (c ∷ s)
EqualsSplit-cons c s h (inl without) = inl (h, without)
EqualsSplit-cons c s h (inr (a, b, e, without)) = inr (c ∷ a, b, ap (◌∷◌ c) e, (h, without))

equals_split : (s : Str) → EqualsSplit s
equals_split [] = inl tt
equals_split (c ∷ s) = elim (Bool-cases (c == b'=')) [
  | inl here ↦ inr ([], s, ap (λ k. k ∷ s) (equals_of c here), tt)
  | inr other ↦ EqualsSplit-cons c s other (equals_split s)
]

load_line_mark :
    (c : ConfigFile) (m : Option Str) (before : Str) (mark : ℕ) (a b : Str)
    → AllSpace before
    → IsMark mark
    → Lacks b'=' a
    → load_line c m ((before ++ mark ∷ a) ++ b'=' ∷ b) ≡ ok (c, m)
unfolding load_line load_entry
load_line_mark c m before mark a b hb hm without =
    let solid = solid_mark mark hm in
    let p = before ++ mark ∷ a in
    let no_section : is_section (p ++ b'=' ∷ b) ≡ none =
      ap is_section (append_assoc before (mark ∷ a) (b'=' ∷ b))
      ∙ is_section_first before mark (a ++ b'=' ∷ b) hb solid (ground arith) in
    let no_equals : Lacks b'=' p =
      Lacks-append b'=' before (mark ∷ a) (AllSpace-Lacks before hb) (ground arith, without) in
    let (t, first) = trim_first before mark a hb solid in
    rw (load_line, no_section, find_lem b'=' p b no_equals, take-append p (b'=' ∷ b), first)
      (ground arith)

load_line_comment :
    (c : ConfigFile) (m : Option Str) (before : Str) (mark : ℕ) (rest : Str)
    → IsWritten (comment before mark rest)
    → EqualsSplit rest
    → load_line c m (text (comment before mark rest)) ≡ ok (c, m)
unfolding load_line
load_line_comment c m before mark rest (hb, hm) (inl without) = rw (
  load_line,
  is_section_first before mark rest hb (solid_mark mark hm) (ground arith),
  find-none b'=' (before ++ mark ∷ rest)
      (Lacks-append b'=' before (mark ∷ rest) (AllSpace-Lacks before hb) (ground arith, without)),
)
load_line_comment c m before mark rest (hb, hm) (inr (a, b, e, without)) =
    ap (load_line c m)
      (ap (λ t. before ++ mark ∷ t) e ∙ sym (append_assoc before (mark ∷ a) (b'=' ∷ b)))
    ∙ load_line_mark c m before mark a b hb hm without

-- A written line does what it says.
pub load_line_lem :
    (c : ConfigFile) (m : Option Str) (l : Line)
    → IsWritten l
    → load_line c m (text l) ≡ apply c m l
unfolding apply load_line
load_line_lem c m (header before left name right after) h =
    load_line-header c m before left name right after h
load_line_lem c m (entry before key left right value after) h =
    load_line-entry c m before key left right value after h
load_line_lem c m (comment before mark rest) h =
    load_line_comment c m before mark rest h (equals_split rest)
load_line_lem c m (blank before) h =
    rw (load_line, is_section_blank before h, find-none b'=' before (AllSpace-Lacks before h))

-- A file that is loaded is the process's from then on.
pub set_path-instance_of :
    (file : Option Str) (loaded : Bool) (c : ConfigFile)
    → load file no_sections ≡ ok (loaded, c)
    → (set_path none file ≡ ok (loaded, some c)) × (instance_of (some c) ≡ ok c)
unfolding set_path instance_of
set_path-instance_of file loaded c e = (rw e, refl)
