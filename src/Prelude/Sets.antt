-- ===== src/Prelude/Sets.antt =====
-- std::unordered_set of numbers: a list without an order that matters.
use lars_study.Prelude.Tests.{◌==◌, if◌then◌else◌, Bool-cases}
use Prim.Native.Nat.{ℕ}
use mathlib.Core.Path.{◌≡◌, refl}
use mathlib.Core.Logic.{inl, inr}
use mathlib.Core.Bool.{Bool, true, false}
use mathlib.Core.List.{List, [], ◌∷◌}
use native.Mathlib.Omega.{arith}

-- find(x) != end()
unfoldable pub contains : ℕ → List ℕ → Bool
contains x [] = false
contains x (y ∷ l) = if x == y then true else contains x l

unfoldable pub emplace : List ℕ → ℕ → List ℕ
emplace l x = if contains x l then l else x ∷ l

unfoldable pub erase : List ℕ → ℕ → List ℕ
erase [] x = []
erase (y ∷ l) x = let rest = erase l x in if y == x then rest else y ∷ rest

unfoldable pub is_empty : List ℕ → Bool
is_empty [] = true
is_empty (x ∷ l) = false

pub contains-emplace :
    (x y : ℕ) (l : List ℕ) → contains x (emplace l y) ≡ (if x == y then true else contains x l)
unfolding contains emplace
contains-emplace x y l = elim (Bool-cases (x == y)) [
  | inl same ↦
      let e : x ≡ y = ground arith in
      elim (Bool-cases (contains y l)) [
        | inl there ↦ rw (there, same, e, there)
        | inr new ↦ rw (new, same)
      ]
  | inr other ↦ elim (Bool-cases (contains y l)) [
    | inl there ↦ rw (there, other)
    | inr new ↦ rw (new, other)
  ]
]

pub contains-erase :
    (x y : ℕ) (l : List ℕ) → contains x (erase l y) ≡ (if x == y then false else contains x l)
unfolding contains erase
contains-erase x y [] = ground arith
contains-erase x y (z ∷ l) = elim (Bool-cases (z == y)) [
  | inl gone ↦ let e : z ≡ y = ground arith in rw (gone, contains-erase x y l, e) (ground arith)
  | inr kept ↦ elim (Bool-cases (x == z)) [
    | inl here ↦ let e : x ≡ z = ground arith in rw (kept, here, e, kept)
    | inr there ↦ rw (kept, there, contains-erase x y l)
  ]
]

pub contains-is_empty : (x : ℕ) (l : List ℕ) → is_empty l ≡ true → contains x l ≡ false
unfolding contains is_empty
contains-is_empty x [] h = refl
contains-is_empty x (y ∷ l) h = absurd (cc)
