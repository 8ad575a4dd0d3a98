-- ===== src/Config/Values/Items.antt =====
-- Lists in the settings.
use lars_study.Prelude.{
  ℕ, zero, suc, ◌+◌, ◌≤◌, ◌<◌, ◌≡◌, refl, ap, sym, ◌∙◌, true, false, List, [], ◌∷◌, ◌++◌, none,
  some, append_assoc, append-nil, All, arith, length, length-append, take-append, drop, drop-append,
  Str, map, ok,
}
use lars_study.Config.Load.{ConfigFile}
use lars_study.Config.Load.Written.{value_at, get_string_lem}
use lars_study.Config.Values.{is_sep, find_first_of, find_first_not_of, split_loop, get_string_list}

abbrev pub Separates : Str → Type 0
Separates [] = ⊥
Separates (c ∷ s) = All (λ d. is_sep d ≡ true) (c ∷ s)

abbrev pub IsPlain : Str → Type 0
IsPlain s = All (λ d. is_sep d ≡ false) s

abbrev pub IsItem : Str → Type 0
IsItem [] = ⊥
IsItem (c ∷ s) = IsPlain (c ∷ s)

-- Separators and an item behind them.
abbrev pub Part : Type 0
Part = Str × Str

abbrev pub list_text : List Part → Str → Str
list_text [] after = after
list_text ((gap, item) ∷ parts) after = gap ++ (item ++ list_text parts after)

abbrev pub item_of : Part → Str
item_of (gap, item) = item

abbrev pub IsPart : Part → Type 0
IsPart (gap, item) = Separates gap × IsItem item

find_first_of_sep :
    (s : Str) (c : ℕ) (t : Str)
    → IsPlain s
    → is_sep c ≡ true
    → find_first_of (s ++ c ∷ t) ≡ some (length s)
unfolding find_first_of
find_first_of_sep [] c t h k = rw k
find_first_of_sep (d ∷ s) c t h k = rw (h.0, find_first_of_sep s c t h.1 k)

find_first_of-none : (s : Str) → IsPlain s → find_first_of s ≡ none
unfolding find_first_of
find_first_of-none [] h = refl
find_first_of-none (d ∷ s) h = rw (h.0, find_first_of-none s h.1)

find_first_not_of_item :
    (s : Str) (c : ℕ) (t : Str)
    → All (λ d. is_sep d ≡ true) s
    → is_sep c ≡ false
    → find_first_not_of (s ++ c ∷ t) ≡ some (length s)
unfolding find_first_not_of
find_first_not_of_item [] c t h k = rw k
find_first_not_of_item (d ∷ s) c t h k = rw (h.0, find_first_not_of_item s c t h.1 k)

find_first_not_of-none : (s : Str) → All (λ d. is_sep d ≡ true) s → find_first_not_of s ≡ none
unfolding find_first_not_of
find_first_not_of-none [] h = refl
find_first_not_of-none (d ∷ s) h = rw (h.0, find_first_not_of-none s h.1)

drop_both : (s t u : Str) → drop (length s + length t) (s ++ (t ++ u)) ≡ u
drop_both s t u =
    let n = length-append s t in
    ap (λ k. drop k (s ++ (t ++ u))) (sym n)
    ∙ ap (drop (length (s ++ t))) (sym (append_assoc s t u))
    ∙ drop-append (s ++ t) u

-- A list ends at its last item, or at separators.
abbrev pub IsEnd : Str → Type 0
IsEnd s = All (λ d. is_sep d ≡ true) s

split_loop_end :
    (fuel : ℕ) (first after : Str)
    → IsPlain first
    → IsEnd after
    → split_loop (suc fuel) (first ++ after) ≡ ok (first ∷ [])
unfolding split_loop
split_loop_end fuel first [] h k =
    ap (split_loop (suc fuel)) (append-nil first) ∙ rw (split_loop, find_first_of-none first h)
split_loop_end fuel first (c ∷ after) h k = rw (
  split_loop,
  find_first_of_sep first c after h k.0,
  drop-append first (c ∷ after),
  find_first_not_of-none (c ∷ after) k,
  take-append first (c ∷ after),
)

split_loop_lem :
    (parts : List Part) (fuel : ℕ) (first after : Str)
    → length parts < fuel
    → IsPlain first
    → All IsPart parts
    → IsEnd after
    → split_loop fuel (first ++ list_text parts after) ≡ ok (first ∷ map item_of parts)
unfolding split_loop
split_loop_lem parts zero first after n h k e = absurd (omega arith)
split_loop_lem [] (suc fuel) first after n h k e = split_loop_end fuel first after h e
split_loop_lem (([], item) ∷ parts) (suc fuel) first after n h k e = absurd k.0.0
split_loop_lem ((c ∷ gap, []) ∷ parts) (suc fuel) first after n h k e = absurd k.0.1
split_loop_lem ((c ∷ gap, d ∷ item) ∷ parts) (suc fuel) first after n h k e =
    let rest = (d ∷ item) ++ list_text parts after in
    rw (
      split_loop,
      find_first_of_sep first c (gap ++ rest) h k.0.0.0,
      drop-append first (c ∷ gap ++ rest),
      find_first_not_of_item (c ∷ gap) d (item ++ list_text parts after) k.0.0 k.0.1.0,
      take-append first (c ∷ gap ++ rest),
      drop_both first (c ∷ gap) rest,
      split_loop_lem parts fuel (d ∷ item) after (omega arith) k.0.1 k.1 e,
    )

length-list_text :
    (parts : List Part) (after : Str)
    → All IsPart parts
    → length parts ≤ length (list_text parts after)
length-list_text [] after h = omega arith
length-list_text (([], item) ∷ parts) after h = absurd h.0.0
length-list_text ((c ∷ gap, item) ∷ parts) after h =
    let ih = length-list_text parts after h.1 in
    omega (
      arith,
      ih,
      length-append gap (item ++ list_text parts after),
      length-append item (list_text parts after),
    )

-- The loop of GetStringList ends, and the list has the items that any commas, spaces and tabs stand
-- between. What stands before the first separator is the first item, also where that is nothing;
-- separators at the end are left out.
pub get_string_list_lem :
    (c : ConfigFile) (section key first : Str) (parts : List Part) (after : Str)
    → value_at c section key ≡ some (first ++ list_text parts after)
    → IsPlain first
    → All IsPart parts
    → IsEnd after
    → get_string_list c section key ≡ ok (first ∷ map item_of parts)
unfolding get_string_list
get_string_list_lem c section key first parts after e h k end =
    let str = first ++ list_text parts after in
    rw (get_string_lem c section key [], e)
      (split_loop_lem parts (length str + 1) first after
        (omega (arith, length-append first (list_text parts after), length-list_text parts after k))
        h k end)
