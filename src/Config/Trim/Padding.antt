-- ===== src/Config/Trim/Padding.antt =====
-- What trim removes, and what it leaves.
use lars_study.Prelude.{
  ℕ, suc, ◌+◌, ◌-◌, ◌≡◌, refl, ap, sym, ◌∙◌, Bool, true, false, [], ◌∷◌, ◌++◌, All, arith, length,
  take-append, reverse, reverse_onto, reverse_onto-append, length-append, Str, Bool-cases, inl, inr,
  subst, append_assoc,
}
use lars_study.Config.Trim.{is_space, first_not_empty, trim_left, last_not_empty, trim_right, trim}

abbrev pub AllSpace : Str → Type 0
AllSpace s = All (λ c. is_space c ≡ true) s

abbrev pub starts_blank : Str → Bool
starts_blank [] = false
starts_blank (c ∷ s) = is_space c

-- No white space at either end.
abbrev pub IsTrimmed : Str → Type 0
IsTrimmed s = (starts_blank s ≡ false) × (starts_blank (reverse s) ≡ false)

trim_left_pad : (a s : Str) → AllSpace a → trim_left (a ++ s) ≡ trim_left s
unfolding trim_left first_not_empty
trim_left_pad [] s h = refl
trim_left_pad (c ∷ a) s h = rw h.0 (trim_left_pad a s h.1)

pub trim_left_self : (s : Str) → starts_blank s ≡ false → trim_left s ≡ s
unfolding trim_left first_not_empty
trim_left_self [] h = refl
trim_left_self (c ∷ s) h = rw h

last_not_empty_pad :
    (a s : Str) (n : ℕ)
    → AllSpace a
    → last_not_empty (reverse_onto a s) (n + length a) ≡ last_not_empty s n
unfolding last_not_empty
last_not_empty_pad [] s n h = let e : n + 0 ≡ n = omega arith in rw e
last_not_empty_pad (c ∷ a) s n h =
    let e : n + suc (length a) ≡ suc n + length a = omega arith in
    let m : suc n - 1 ≡ n = omega arith in
    rw e (last_not_empty_pad a (c ∷ s) (suc n) h.1 ∙ rw (h.0, m))

last_not_empty_self : (s : Str) (n : ℕ) → starts_blank s ≡ false → last_not_empty s n ≡ n
unfolding last_not_empty
last_not_empty_self [] n h = refl
last_not_empty_self (c ∷ s) n h = rw h

trim_right_pad :
    (s a : Str) → AllSpace a → starts_blank (reverse s) ≡ false → trim_right (s ++ a) ≡ s
unfolding trim_right
trim_right_pad s a h k =
    rw
      (
        length-append s a,
        reverse_onto-append s a [],
        last_not_empty_pad a (reverse s) (length s) h,
        last_not_empty_self (reverse s) (length s) k,
      )
      (take-append s a)

starts_blank-reverse_onto :
    (s : Str) (c : ℕ) (rest rest' : Str)
    → starts_blank (reverse_onto s (c ∷ rest)) ≡ starts_blank (reverse_onto s (c ∷ rest'))
starts_blank-reverse_onto [] c rest rest' = refl
starts_blank-reverse_onto (d ∷ s) c rest rest' =
    starts_blank-reverse_onto s d (c ∷ rest) (c ∷ rest')

AllSpace-append : (a b : Str) → AllSpace a → AllSpace b → AllSpace (a ++ b)
AllSpace-append [] b h k = k
AllSpace-append (c ∷ a) b h k = (h.0, AllSpace-append a b h.1 k)

-- What stands between white space is found, whatever it is.
pub trim_pad :
    (before s after : Str)
    → AllSpace before
    → IsTrimmed s
    → AllSpace after
    → trim (before ++ (s ++ after)) ≡ s
unfolding trim
trim_pad before [] after hb hs ha =
    rw (trim_right_pad [] (before ++ after) (AllSpace-append before after hb ha) refl)
      (trim_left_self [] refl)
trim_pad before (c ∷ s) after hb hs ha =
    let last : starts_blank (reverse (before ++ c ∷ s)) ≡ false =
      ap starts_blank (reverse_onto-append before (c ∷ s) [])
      ∙ starts_blank-reverse_onto s c (reverse before) []
      ∙ hs.1 in
    rw (← append_assoc before (c ∷ s) after, trim_right_pad (before ++ c ∷ s) after ha last)
      (trim_left_pad before (c ∷ s) hb ∙ trim_left_self (c ∷ s) hs.0)

-- The two ends of a text.
abbrev LeftSplit : Str → Type 0
LeftSplit s =
    (before rest : Str) × (s ≡ before ++ rest) × AllSpace before × (starts_blank rest ≡ false)

left_split : (s : Str) → LeftSplit s
left_split [] = ([], [], refl, tt, refl)
left_split (c ∷ s) = elim (Bool-cases (is_space c)) [
  | inl blank ↦
      let (before, rest, e, spaces, trimmed) = left_split s in
      (c ∷ before, rest, ap (◌∷◌ c) e, (blank, spaces), trimmed)
  | inr solid ↦ ([], c ∷ s, refl, tt, solid)
]

abbrev RightSplit : Str → Type 0
RightSplit s =
    (body after : Str) × (s ≡ body ++ after)
    × AllSpace after
    × (starts_blank (reverse body) ≡ false)

RightSplit-cons :
    (c : ℕ) (s body after : Str)
    → s ≡ body ++ after
    → AllSpace after
    → starts_blank (reverse body) ≡ false
    → RightSplit (c ∷ s)
RightSplit-cons c s [] after e spaces trimmed = elim (Bool-cases (is_space c)) [
  | inl blank ↦ ([], c ∷ after, ap (◌∷◌ c) e, (blank, spaces), refl)
  | inr solid ↦ (c ∷ [], after, ap (◌∷◌ c) e, spaces, solid)
]
RightSplit-cons c s (d ∷ body) after e spaces trimmed = (
  c ∷ d ∷ body,
  after,
  ap (◌∷◌ c) e,
  spaces,
  starts_blank-reverse_onto body d (c ∷ []) [] ∙ trimmed,
)

right_split : (s : Str) → RightSplit s
right_split [] = ([], [], refl, tt, refl)
right_split (c ∷ s) =
    let (body, after, e, spaces, trimmed) = right_split s in
    RightSplit-cons c s body after e spaces trimmed

starts_blank_prefix :
    (body after : Str) → starts_blank (body ++ after) ≡ false → starts_blank body ≡ false
starts_blank_prefix [] after h = refl
starts_blank_prefix (c ∷ body) after h = h

first_of_split :
    (before : Str) (c : ℕ) (rest body after : Str)
    → AllSpace before
    → is_space c ≡ false
    → c ∷ rest ≡ body ++ after
    → AllSpace after
    → starts_blank (reverse body) ≡ false
    → (t : Str) × (trim (before ++ c ∷ rest) ≡ c ∷ t)
first_of_split before c rest [] [] hb hc e ha trimmed = absurd (cc)
first_of_split before c rest [] (d ∷ after) hb hc e ha trimmed =
    let same : c ≡ d = cc in absurd (ground (arith, ha.0, hc, same))
first_of_split before c rest (d ∷ body) after hb hc e ha trimmed =
    let same : d ≡ c = cc in
    let first : is_space d ≡ false = rw same hc in
    (
      body,
      ap (λ t. trim (before ++ t)) e
          ∙ trim_pad before (d ∷ body) after hb (first, trimmed) ha
          ∙ ap (λ k. k ∷ body) same,
    )

-- The first character that is no white space stays the first one.
pub trim_first :
    (before : Str) (c : ℕ) (rest : Str)
    → AllSpace before
    → is_space c ≡ false
    → (t : Str) × (trim (before ++ c ∷ rest) ≡ c ∷ t)
trim_first before c rest hb hc =
    let (body, after, e, spaces, trimmed) = right_split (c ∷ rest) in
    first_of_split before c rest body after hb hc e spaces trimmed

-- Trimming takes off white space only, and all of it.
pub trim_parts :
    (s : Str)
    → (before after : Str) × (s ≡ before ++ (trim s ++ after))
      × AllSpace before
      × AllSpace after
      × IsTrimmed (trim s)
trim_parts s =
    let (before, rest, e, hb, first) = left_split s in
    let (body, after, f, ha, last) = right_split rest in
    let trimmed : IsTrimmed body =
      (starts_blank_prefix body after (ap starts_blank (sym f) ∙ first), last) in
    let whole : s ≡ before ++ (body ++ after) = e ∙ ap (◌++◌ before) f in
    let same : body ≡ trim s =
      sym (trim_pad before body after hb trimmed ha) ∙ ap trim (sym whole) in
    (
      before,
      after,
      whole ∙ ap (λ t. before ++ (t ++ after)) same,
      hb,
      ha,
      subst IsTrimmed same trimmed,
    )
