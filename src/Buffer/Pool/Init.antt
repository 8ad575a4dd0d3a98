-- ===== src/Buffer/Pool/Init.antt =====
-- The constructor of buf_pool.
use lars_study.Prelude.{
  ℕ, ◌≡◌, refl, List, ◌∷◌, none, some, ◌==◌, arith, All, All-replicate, Bool-cases, inl, inr, sym,
}
use mathlib.Core.Path.{subst₂}
use lars_study.Buffer.IoBuf.{IoBuf, io_buf}
use lars_study.Buffer.Pool.{Pool, IsValid, IsFree, fill, buf_pool}

abbrev IsSorted : Pool → Type 0
IsSorted p = (k : ℕ) (l : List IoBuf) → p.free k ≡ some l → All (IsFree k) l

fill-IsSorted : (cap n kb : ℕ) (p : Pool) → IsSorted p → IsSorted (fill cap n kb p)
unfolding fill
fill-IsSorted cap n kb p s i m e = elim (Bool-cases (i == cap)) [
  | inl same ↦
      let here : i ≡ cap = ground arith in
      let l≡m : io_buf cap ∷ _ ≡ m = ground arith in
      subst₂ (λ j x. All (IsFree j) x) (sym here) l≡m
        ((refl, refl, refl), All-replicate (IsFree cap) n (io_buf cap) (refl, refl, refl))
  | inr other ↦ s i m (rw other at e)
]

empty-IsSorted : IsSorted (record { free = λ k. none; total_mem = 0 })
empty-IsSorted k l e = absurd (cc)

-- The pool starts well-formed.
pub buf_pool-IsValid : IsValid buf_pool
unfolding buf_pool
buf_pool-IsValid = record {
  has_class = λ k c. unfold fill in ground arith;
  sorted = fill-IsSorted _ _ _ _ (
      fill-IsSorted _ _ _ _ (
        fill-IsSorted _ _ _ _ (
          fill-IsSorted _ _ _ _ (
            fill-IsSorted _ _ _ _
              (fill-IsSorted _ _ _ _ (fill-IsSorted _ _ _ _ empty-IsSorted))))));
}
