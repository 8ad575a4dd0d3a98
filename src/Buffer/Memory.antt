-- ===== src/Buffer/Memory.antt =====
-- The bytes behind a `char*`: a function from offsets to bytes. `slice` reads a range, `store`
-- writes one; the bounds are those of the buffer, checked by its callers.
use lars_study.Prelude.{
  ℕ, zero, suc, ◌+◌, ◌-◌, ◌≤◌, ◌≡◌, refl, sym, ap, subst, ◌∙◌, List, [], ◌∷◌, ◌++◌, arith, ◌==◌,
  if◌then◌else◌, length, ==_refl,
}

abbrev pub Memory : Type 0
Memory = ℕ → ℕ

unfoldable pub slice : Memory → ℕ → ℕ → List ℕ
slice m off zero = []
slice m off (suc n) = m off ∷ slice m (suc off) n

unfoldable pub store : Memory → ℕ → List ℕ → Memory
store m off [] i = m i
store m off (b ∷ bs) i = if i == off then b else store m (suc off) bs i

pub length-slice : (m : Memory) (off n : ℕ) → length (slice m off n) ≡ n
unfolding slice
length-slice m off zero = refl
length-slice m off (suc n) = ap suc (length-slice m (suc off) n)

pub slice-append :
    (m : Memory) (off a b : ℕ) → slice m off (a + b) ≡ slice m off a ++ slice m (off + a) b
unfolding slice
slice-append m off zero b =
    let e : zero + b ≡ b = omega arith in let f : off + zero ≡ off = omega arith in rw (e, f)
slice-append m off (suc a) b =
    let e : suc a + b ≡ suc (a + b) = omega arith in
    let f : off + suc a ≡ suc off + a = omega arith in
    rw (e, f) (ap (◌∷◌ (m off)) (slice-append m (suc off) a b))

store_below : (m : Memory) (off : ℕ) (bs : List ℕ) (i : ℕ) → suc i ≤ off → store m off bs i ≡ m i
unfolding store
store_below m off [] i h = refl
store_below m off (b ∷ bs) i h = ground (arith, store_below m (suc off) bs i)

pub slice-store_below :
    (m : Memory) (o : ℕ) (bs : List ℕ) (off n : ℕ)
    → off + n ≤ o
    → slice (store m o bs) off n ≡ slice m off n
unfolding slice
slice-store_below m o bs off zero h = refl
slice-store_below m o bs off (suc n) h =
    rw (store_below m o bs off (omega arith), slice-store_below m o bs (suc off) n (omega arith))

pub slice-ext :
    (m k : Memory) (off n : ℕ) → ((i : ℕ) → off ≤ i → m i ≡ k i) → slice m off n ≡ slice k off n
unfolding slice
slice-ext m k off zero h = refl
slice-ext m k off (suc n) h =
    rw (h off (omega arith), slice-ext m k (suc off) n (λ i l. h i (omega arith)))

pub slice-store_self :
    (m : Memory) (off : ℕ) (bs : List ℕ) → slice (store m off bs) off (length bs) ≡ bs
unfolding slice store
slice-store_self m off [] = refl
slice-store_self m off (b ∷ bs) = rw (
  ==_refl off,
  slice-ext (store m off (b ∷ bs)) (store m (suc off) bs) (suc off) (length bs)
      (λ i l. ground arith),
  slice-store_self m (suc off) bs,
)

-- What is written behind a range extends it.
pub slice-store_append :
    (m : Memory) (off n : ℕ) (bs : List ℕ)
    → slice (store m (off + n) bs) off (n + length bs) ≡ slice m off n ++ bs
slice-store_append m off n bs = rw (
  slice-append (store m (off + n) bs) off n (length bs),
  slice-store_below m (off + n) bs off n (omega arith),
  slice-store_self m (off + n) bs,
)

-- A range of a range.
pub slice-split :
    (m : Memory) (off a n : ℕ) → a ≤ n → slice m off n ≡ slice m off a ++ slice m (off + a) (n - a)
slice-split m off a n h =
    let e : n ≡ a + (n - a) = omega arith in
    subst (λ k. slice m off k ≡ slice m off a ++ slice m (off + a) (n - a)) (sym e)
      (slice-append m off a (n - a))

-- A range that begins with `xs` holds them, and behind them the rest.
pub slice-prefix :
    (m : Memory) (off n : ℕ) (xs ys : List ℕ)
    → slice m off n ≡ xs ++ ys
    → (slice m off (length xs) ≡ xs)
      × (slice m (off + length xs) (length ys) ≡ ys)
      × (length xs + length ys ≡ n)
unfolding slice
slice-prefix m off n [] ys h =
    let e : length ys ≡ n = sym (ap length h) ∙ length-slice m off n in
    let f : off + 0 ≡ off = omega arith in (refl, rw (f, e) h, omega arith)
slice-prefix m off zero (x ∷ xs) ys h = absurd (cc)
slice-prefix m off (suc n) (x ∷ xs) ys h =
    let head : m off ≡ x = cc in
    let (a, b, c) = slice-prefix m (suc off) n xs ys (cc) in
    let f : off + suc (length xs) ≡ suc off + length xs = omega arith in
    (rw (head, a), rw f b, omega (arith, c))
