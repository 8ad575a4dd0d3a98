-- ===== src/Config/Load/Lines.antt =====
-- What one line of the file does.
use lars_study.Prelude.{
  ℕ, suc, ◌-◌, ◌<◌, lt→leb, ◌≡◌, refl, ap, sym, ◌∙◌, ◌⊎◌, false, [], ◌∷◌, ◌++◌, none, some,
  append-nil, All, arith, ◌==◌, length, get_elem?-append, take-append, drop, length-append, Str,
  reverse_onto-append,
}
use lars_study.Config.Trim.{is_space, trim}
use lars_study.Config.Trim.Padding.{AllSpace, IsTrimmed, trim_pad, trim_first, starts_blank}
use lars_study.Config.Load.{is_section, find}

-- A line of a file: what opens a section, a key with its value, a comment, or white space.
pub data Line : Type 0 where
  -- before [ left name right ] after
  header : Str → Str → Str → Str → Str → Line
  -- before key left = right value after
  entry : Str → Str → Str → Str → Str → Str → Line
  comment : Str → ℕ → Str → Line
  blank : Str → Line

abbrev pub bracketed : Str → Str → Str → Str
bracketed left name right = (b'[' ∷ (left ++ (name ++ right))) ++ b']' ∷ []

abbrev pub text : Line → Str
text (header before left name right after) = before ++ (bracketed left name right ++ after)
text (entry before key left right value after) =
    (before ++ (key ++ left)) ++ b'=' ∷ (right ++ (value ++ after))
text (comment before mark rest) = before ++ (mark ∷ rest)
text (blank before) = before

-- The text has none of the character.
abbrev pub Lacks : ℕ → Str → Type 0
Lacks c s = All (λ d. (d == c) ≡ false) s

-- A key does not start like a section or a comment.
abbrev pub StartsKey : Str → Type 0
StartsKey [] = ⊥
StartsKey (c ∷ s) = ((c == b'[') ≡ false) × ((c == b'#') ≡ false) × ((c == b';') ≡ false)

abbrev pub IsName : Str → Type 0
IsName [] = ⊥
IsName (c ∷ s) = IsTrimmed (c ∷ s)

abbrev pub IsMark : ℕ → Type 0
IsMark c = (c ≡ b'#') ⊎ (c ≡ b';')

-- White space stands round the parts of a line, and these have none at their ends.
abbrev pub IsWritten : Line → Type 0
IsWritten (header before left name right after) =
    AllSpace before × AllSpace left × AllSpace right × AllSpace after × IsName name
IsWritten (entry before key left right value after) =
    AllSpace before
    × AllSpace left
    × AllSpace right
    × AllSpace after
    × IsTrimmed key
    × StartsKey key
    × Lacks b'=' key
    × IsTrimmed value
IsWritten (comment before mark rest) = AllSpace before × IsMark mark
IsWritten (blank before) = AllSpace before

pub find_lem : (c : ℕ) (s t : Str) → Lacks c s → find c (s ++ c ∷ t) ≡ some (length s)
unfolding find
find_lem c [] t h = ground arith
find_lem c (d ∷ s) t h = rw (h.0, find_lem c s t h.1)

pub find-none : (c : ℕ) (s : Str) → Lacks c s → find c s ≡ none
unfolding find
find-none c [] h = refl
find-none c (d ∷ s) h = rw (h.0, find-none c s h.1)

pub drop_through : (s : Str) (c : ℕ) (t : Str) → drop (suc (length s)) (s ++ c ∷ t) ≡ t
drop_through [] c t = refl
drop_through (d ∷ s) c t = drop_through s c t

pub solid_mark : (c : ℕ) → IsMark c → is_space c ≡ false
unfolding is_space
solid_mark c h = ground arith

-- A line whose first character is not an opening bracket opens no section.
pub is_section_first :
    (before : Str) (c : ℕ) (rest : Str)
    → AllSpace before
    → is_space c ≡ false
    → (c == b'[') ≡ false
    → is_section (before ++ c ∷ rest) ≡ none
unfolding is_section
is_section_first before c rest hb hc h =
    let (t, e) = trim_first before c rest hb hc in rw (e, h) (ground arith)

pub is_section_blank : (before : Str) → AllSpace before → is_section before ≡ none
unfolding is_section
is_section_blank before h =
    let e : trim before ≡ [] =
      ap trim (sym (append-nil before)) ∙ trim_pad before [] [] h (refl, refl) tt in
    rw e

-- What stands between brackets names a section.
pub is_section_bracketed :
    (before inside after : Str)
    → AllSpace before
    → AllSpace after
    → 0 < length inside
    → is_section (before ++ ((b'[' ∷ inside ++ b']' ∷ []) ++ after)) ≡ some (trim inside)
unfolding is_section is_space
is_section_bracketed before inside after hb ha h =
    let q = b'[' ∷ inside in
    let ends : IsTrimmed (q ++ b']' ∷ []) =
      (refl, ap starts_blank (reverse_onto-append q (b']' ∷ []) [])) in
    let n = length-append inside (b']' ∷ []) in
    let last : suc (length (inside ++ b']' ∷ [])) - 1 ≡ length q = omega (arith, n) in
    let size : suc (length (inside ++ b']' ∷ [])) - 2 ≡ length inside = omega (arith, n) in
    rw (
      trim_pad before (q ++ b']' ∷ []) after hb ends ha,
      last,
      size,
      get_elem?-append q b']' [],
      take-append inside (b']' ∷ []),
      lt→leb (suc (length (inside ++ b']' ∷ []))) 2 (omega (arith, n)),
    )
