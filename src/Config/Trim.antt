-- ===== src/Config/Trim.antt =====
-- trimLeft, trimRight and trim of lars_reactor/src/config_file.cc.
pub mod Padding
use lars_study.Prelude.{
  ℕ, suc, ◌-◌, Bool, ◌&&◌, ◌||◌, not, [], ◌∷◌, ◌==◌, leb, if◌then◌else◌, length, take, drop,
  reverse, Str,
}

-- `isspace` in the C locale.
unfoldable pub is_space : ℕ → Bool
is_space c = c == b' ' || (leb 9 c && leb c 13)

-- The loop of trimLeft.
first_not_empty : Str → ℕ
first_not_empty [] = 0
first_not_empty (c ∷ s) = let rest = first_not_empty s in if not (is_space c) then 0 else suc rest

unfoldable pub trim_left : Str → Str
unfolding first_not_empty is_space
trim_left s = drop (first_not_empty s) s

-- The loop of trimRight, over the characters from the last to the first.
last_not_empty : Str → ℕ → ℕ
last_not_empty [] n = n
last_not_empty (c ∷ s) n =
    let rest = last_not_empty s (n - 1) in if not (is_space c) then n else rest

pub trim_right : Str → Str
unfolding last_not_empty is_space
trim_right s = take (last_not_empty (reverse s) (length s)) s

unfoldable pub trim : Str → Str
unfolding trim_left trim_right
trim s = trim_left (trim_right s)
