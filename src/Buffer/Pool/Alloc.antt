-- ===== src/Buffer/Pool/Alloc.antt =====
-- buf_pool::alloc_buf: what a request gets.
use lars_study.Prelude.{
  ℕ, ◌≡◌, ◌≢◌, ◌≤◌, ◌<◌, refl, true, List, [], ◌∷◌, Option, none, some, ltb, ◌==◌, ℤ, pos, negsuc,
  ok, stop, exit_failure, arith, Option-cases, inl, inr, All, Returns, sym, Bool-cases, to_int,
  length, to_int_small, to_int_big, int_bound, u32_mod,
}
use mathlib.Core.Path.{subst₂}
use lars_study.Buffer.IoBuf.{IoBuf}
use lars_study.Buffer.Pool.{
  Pool, IsValid, IsFree, is_class, class_of, alloc_buf, take_from, create, update, m4k, m16k, m8m,
}

pub class_of_bounds : (n k : ℕ) → class_of n ≡ some k → (n ≤ k) × (is_class k ≡ true) × (k ≢ m16k)
unfolding class_of
class_of_bounds n k h = ground arith

class_of-none : (n : ℕ) → class_of n ≡ none → m8m < n
unfolding class_of
class_of-none n h = ground arith

class_of_large : (n : ℕ) → m8m < n → class_of n ≡ none
unfolding class_of
class_of_large n h = ground arith

-- What a request for `n` bytes leaves: an empty buffer with room for them, or no buffer where `n` is
-- past the largest class.
abbrev pub Allocates : ℕ → Pool → Option IoBuf × Pool → Type 0
Allocates n p (none, p') = (m8m < n) × (p' ≡ p)
Allocates n p (some b, p') =
    (n ≤ b.capacity) × (is_class b.capacity ≡ true) × (b.length ≡ 0) × (b.head ≡ 0) × IsValid p'

pub update-IsValid :
    (p : Pool) (k : ℕ) (l : List IoBuf)
    → All (IsFree k) l
    → IsValid p
    → IsValid (record p { free = update p.free k l })
update-IsValid p k l h v = record {
  has_class = λ i c e. ground (arith, v.has_class i c);
  sorted = λ i m e. elim (Bool-cases (i == k)) [
    | inl same ↦
        let here : i ≡ k = ground arith in
        let l≡m : l ≡ m = ground arith in subst₂ (λ j x. All (IsFree j) x) (sym here) l≡m h
    | inr other ↦ v.sorted i m (rw other at e)
  ];
}

take_from-Returns :
    (p : Pool) (n k : ℕ) (l : List IoBuf)
    → IsValid p
    → p.free k ≡ some l
    → n ≤ k
    → is_class k ≡ true
    → Returns (take_from p k l) (Allocates n p)
unfolding take_from create
take_from-Returns p n k [] v e h c = ground arith
take_from-Returns p n k (b ∷ l) v e h c =
    let f = v.sorted k (b ∷ l) e in
    (rw f.0.0 h, rw f.0.0 c, f.0.1, f.0.2, update-IsValid p k l f.1 v)

-- A request for `n` bytes on a well-formed pool gets an empty buffer of a class with room for them,
-- and no buffer only where no class is large enough; or the process exits for want of a block.
pub alloc_buf-Returns :
    (p : Pool) (n : ℕ) → IsValid p → Returns (alloc_buf p (pos n)) (Allocates n p)
unfolding alloc_buf
alloc_buf-Returns p n v = elim (Option-cases (class_of n)) [
  | inl e ↦ rw (e, alloc_buf) (class_of-none n e, refl)
  | inr (k, e) ↦
      let b = class_of_bounds n k e in
      elim (Option-cases (p.free k)) [
        | inl f ↦ absurd (v.has_class k b.1 f)
        | inr (l, f) ↦ rw (e, alloc_buf, f) (take_from-Returns p n k l v f b.0 b.1)
      ]
]

-- The same for a size that is computed as a `size_t` and passed as an `int`.
pub alloc_buf-to_int :
    (p : Pool) (n : ℕ) → IsValid p → n < u32_mod → Returns (alloc_buf p (to_int n)) (Allocates n p)
alloc_buf-to_int p n v h = elim (Bool-cases (ltb n int_bound)) [
  | inl e ↦ rw (to_int_small n (ground arith)) (alloc_buf-Returns p n v)
  | inr e ↦ rw (to_int_big n (ground arith) h) (unfold alloc_buf in (ground arith, refl))
]

-- A successful allocation takes the first buffer of the list of its class, and changes nothing else.
pub alloc_buf-takes :
    (p p' : Pool) (z : ℤ) (b : IoBuf)
    → IsValid p
    → alloc_buf p z ≡ ok (some b, p')
    → (k : ℕ) × (l : List IoBuf) × (is_class k ≡ true)
      × (k ≢ m16k)
      × (p.free k ≡ some (b ∷ l))
      × (p' ≡ record p { free = update p.free k l })
unfolding alloc_buf
alloc_buf-takes p p' (negsuc n) b v h = cc
alloc_buf-takes p p' (pos n) b v h = elim (Option-cases (class_of n)) [
  | inl e ↦ cc (rw (e, alloc_buf) at h)
  | inr (k, e) ↦ elim (Option-cases (p.free k)) [
    | inl f ↦ absurd (v.has_class k (class_of_bounds n k e).1 f)
    | inr (l, f) ↦ took k l e f (rw (e, alloc_buf, f) at h)
  ]
]
  where
    took :
        (k : ℕ) (l : List IoBuf)
        → class_of n ≡ some k
        → p.free k ≡ some l
        → take_from p k l ≡ ok (some b, p')
        → (j : ℕ) × (m : List IoBuf) × (is_class j ≡ true)
          × (j ≢ m16k)
          × (p.free j ≡ some (b ∷ m))
          × (p' ≡ record p { free = update p.free j m })
    took k [] e f g = unfold take_from create in ground arith
    took k (c ∷ l) e f g = (
      k,
      l,
      (class_of_bounds n k e).1,
      (class_of_bounds n k e).2,
      unfold take_from in ground arith,
      unfold take_from in ground arith,
    )

-- With the list of its class used up, a request ends the process, whatever the memory in use: the
-- test after `new` reads the old, null pointer.
pub alloc_buf_exhausted :
    (p : Pool) (n k : ℕ)
    → class_of n ≡ some k
    → p.free k ≡ some []
    → alloc_buf p (pos n) ≡ stop exit_failure
unfolding alloc_buf
alloc_buf_exhausted p n k e f = rw (e, alloc_buf, f) (ground arith)

pub class_le : (k : ℕ) → is_class k ≡ true → k ≤ m8m
class_le k h = ground arith

pub class_ge : (k : ℕ) → is_class k ≡ true → 4096 ≤ k
class_ge k h = ground arith

pub alloc_buf_too_large :
    (p : Pool) (n : ℕ) → m8m < n → n < u32_mod → alloc_buf p (to_int n) ≡ ok (none, p)
unfolding alloc_buf
alloc_buf_too_large p n h l = elim (Bool-cases (ltb n int_bound)) [
  | inl e ↦ rw (to_int_small n (ground arith), class_of_large n h, alloc_buf)
  | inr e ↦ rw (to_int_big n (ground arith) l)
]

-- The first block: an empty one of the smallest class.
pub first_block :
    (p : Pool) (l : List IoBuf)
    → p.free m4k ≡ some l
    → 1 ≤ length l
    → IsValid p
    → (b : IoBuf) × (q : Pool) × (alloc_buf p (pos 8) ≡ ok (some b, q))
      × (b.capacity ≡ m4k)
      × (b.length ≡ 0)
      × (b.head ≡ 0)
unfolding alloc_buf take_from class_of
first_block p [] e h v = absurd (omega arith)
first_block p (b ∷ l) e h v =
    let free = (v.sorted m4k (b ∷ l) e).0 in
    (b, record p { free = update p.free m4k l }, rw e, free.0, free.1, free.2)
