-- ===== src/Prelude/Text.antt =====
-- std::string as the list of its bytes.
use Prim.Native.Nat.{ℕ, zero, suc}
use Prim.Native.Char.{code}
use Prim.Native.String.{String}
use mathlib.Core.Path.{◌≡◌, refl, ap}
use mathlib.Core.Bool.{Bool, true, false, ◌&&◌}
use mathlib.Core.List.{List, [], ◌∷◌, ◌++◌}
use native.Mathlib.Omega.{arith}
use lars_study.Prelude.Tests.{◌==◌}
use lars_study.Prelude.Lists.{length, take}

abbrev pub Str : Type 0
Str = List ℕ

-- The bytes of a literal in ASCII.
abbrev pub codes : String → Str
codes String.[] = []
codes (String.◌∷◌ c s) = code c ∷ codes s

abbrev pub eqb_str : Str → Str → Bool
eqb_str [] [] = true
eqb_str [] (d ∷ t) = false
eqb_str (c ∷ s) [] = false
eqb_str (c ∷ s) (d ∷ t) = c == d && eqb_str s t

pub eqb_str_refl : (s : Str) → eqb_str s s ≡ true
eqb_str_refl [] = refl
eqb_str_refl (c ∷ s) = ground (arith, eqb_str_refl s)

pub eqb_str_eq : (s t : Str) → eqb_str s t ≡ true → s ≡ t
eqb_str_eq [] [] h = refl
eqb_str_eq [] (d ∷ t) h = absurd (cc)
eqb_str_eq (c ∷ s) [] h = absurd (cc)
eqb_str_eq (c ∷ s) (d ∷ t) h = ground (arith, eqb_str_eq s t)

module _ {ℓ} {A : Type ℓ} where
  abbrev pub drop : ℕ → List A → List A
  drop zero xs = xs
  drop (suc n) [] = []
  drop (suc n) (x ∷ xs) = drop n xs

  abbrev pub reverse_onto : List A → List A → List A
  reverse_onto [] out = out
  reverse_onto (x ∷ xs) out = reverse_onto xs (x ∷ out)

  abbrev pub reverse : List A → List A
  reverse xs = reverse_onto xs []

  pub reverse_onto-append :
      (xs ys out : List A) → reverse_onto (xs ++ ys) out ≡ reverse_onto ys (reverse_onto xs out)
  reverse_onto-append [] ys out = refl
  reverse_onto-append (x ∷ xs) ys out = reverse_onto-append xs ys (x ∷ out)

  pub reverse_onto_lem :
      (xs out rest : List A) → reverse_onto xs (out ++ rest) ≡ reverse_onto xs out ++ rest
  reverse_onto_lem [] out rest = refl
  reverse_onto_lem (x ∷ xs) out rest = reverse_onto_lem xs (x ∷ out) rest

  pub take-append : (xs ys : List A) → take (length xs) (xs ++ ys) ≡ xs
  take-append [] ys = refl
  take-append (x ∷ xs) ys = ap (◌∷◌ x) (take-append xs ys)

  pub drop-append : (xs ys : List A) → drop (length xs) (xs ++ ys) ≡ ys
  drop-append [] ys = refl
  drop-append (x ∷ xs) ys = drop-append xs ys
