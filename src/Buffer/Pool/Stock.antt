-- ===== src/Buffer/Pool/Stock.antt =====
-- A pool with free buffers in each class: no request ends the process.
use lars_study.Prelude.{
  ℕ, zero, suc, ◌≤◌, ◌≡◌, refl, ap, sym, ◌∙◌, true, false, replicate, List, [], ◌∷◌, Option, none,
  some, ◌==◌, arith, length, ℤ, pos, negsuc, Bool-cases, Option-cases, inl, inr, Spares,
  Returns-Spares, Yields, to_int, to_size,
}
use lars_study.Buffer.IoBuf.{IoBuf, io_buf}
use lars_study.Buffer.Pool.{
  Pool, IsValid, is_class, class_of, take_from, update, alloc_buf, give_back, revert, buf_pool,
  fill, m4k, m16k, m64k, m256k, m1m, m4m, m8m,
}
use lars_study.Buffer.Pool.Alloc.{class_of_bounds, Allocates, alloc_buf-Returns}

-- Each class has `n` free buffers or more.
abbrev pub IsStocked : ℕ → Pool → Type 0
IsStocked n p =
    (k : ℕ) → is_class k ≡ true → (l : List IoBuf) × (p.free k ≡ some l) × (n ≤ length l)

pub IsStocked-le : (m n : ℕ) (p : Pool) → m ≤ n → IsStocked n p → IsStocked m p
IsStocked-le m n p h s k c = let (l, e, size) = s k c in (l, e, omega arith)

update-IsStocked :
    (n : ℕ) (p : Pool) (k : ℕ) (l : List IoBuf)
    → n ≤ length l
    → IsStocked n p
    → IsStocked n (record p { free = update p.free k l })
update-IsStocked n p k l h s i c = elim (Bool-cases (i == k)) [
  | inl same ↦ (l, rw same, h)
  | inr other ↦ let (m, e, size) = s i c in (m, rw other e, size)
]

take_from-Spares :
    (n : ℕ) (p : Pool) (k : ℕ) (l : List IoBuf)
    → suc n ≤ length l
    → IsStocked (suc n) p
    → Spares (take_from p k l) (λ r. IsStocked n r.1)
unfolding take_from
take_from-Spares n p k [] h s = absurd (omega arith)
take_from-Spares n p k (b ∷ rest) h s =
    update-IsStocked n p k rest (omega arith) (IsStocked-le n (suc n) p (omega arith) s)

pub alloc_buf-Spares :
    (n : ℕ) (p : Pool) (z : ℤ) → IsStocked (suc n) p → Spares (alloc_buf p z) (λ r. IsStocked n r.1)
unfolding alloc_buf
alloc_buf-Spares n p (negsuc z) s = IsStocked-le n (suc n) p (omega arith) s
alloc_buf-Spares n p (pos z) s = elim (Option-cases (class_of z)) [
  | inl large ↦ rw (alloc_buf, large) (IsStocked-le n (suc n) p (omega arith) s)
  | inr (k, found) ↦
      let (l, e, size) = s k (class_of_bounds z k found).1 in
      rw (alloc_buf, found, e) (take_from-Spares n p k l size s)
]

give_back-Spares :
    (n : ℕ) (p : Pool) (k : ℕ) (b : IoBuf) (o : Option (List IoBuf))
    → p.free k ≡ o
    → IsStocked n p
    → Spares (give_back p k b o) (λ q. IsStocked n q)
give_back-Spares n p k b none e s = tt
give_back-Spares n p k b (some l) e s = λ i c. elim (Bool-cases (i == k)) [
  | inl same ↦
      let (m, f, size) = s i c in
      let at_k : i ≡ k = ground arith in
      let found : ◌≡◌ {A = Option (List IoBuf)} (some m) (some l) = sym f ∙ ap p.free at_k ∙ e in
      let eq : m ≡ l = cc in (b ∷ l, rw same, omega (arith, ap length eq))
  | inr other ↦ let (m, f, size) = s i c in (m, rw other f, size)
]

pub revert-Spares :
    (n : ℕ) (p : Pool) (b : IoBuf) → IsStocked n p → Spares (revert p b) (λ q. IsStocked n q)
unfolding revert
revert-Spares n p b s =
    give_back-Spares n p (to_size (to_int b.capacity)) _ (p.free (to_size (to_int b.capacity))) refl
      s

-- A request for `n` bytes to a well-formed pool that has free buffers gets an empty buffer of a class with
-- room for them, and no buffer exactly where no class is large enough; each class loses one buffer
-- at most.
pub alloc_buf-Yields :
    (p : Pool) (n stock : ℕ)
    → IsValid p
    → IsStocked (suc stock) p
    → Yields (alloc_buf p (pos n)) (λ r. Allocates n p r × IsStocked stock r.1)
alloc_buf-Yields p n stock v s =
    Returns-Spares (alloc_buf p (pos n)) (Allocates n p) _ (alloc_buf-Returns p n v)
      (alloc_buf-Spares stock p (pos n) s)

abbrev HasStock : ℕ → ℕ → Pool → Type 0
HasStock n k p = (l : List IoBuf) × (p.free k ≡ some l) × (n ≤ length l)

length-replicate : (n : ℕ) (b : IoBuf) → length (replicate n b) ≡ n
length-replicate zero b = refl
length-replicate (suc n) b = ap suc (length-replicate n b)

fill-HasStock :
    (n k cap m kb : ℕ) (p : Pool)
    → n ≤ m
    → ((k == cap) ≡ false → HasStock n k p)
    → HasStock n k (fill cap m kb p)
unfolding fill
fill-HasStock n k cap m kb p h rest = elim (Bool-cases (k == cap)) [
  | inl here ↦ (
    io_buf cap ∷ replicate m (io_buf cap),
    rw here,
    omega (arith, length-replicate m (io_buf cap)),
  )
  | inr other ↦ let (l, e, size) = rest other in (l, rw other e, size)
]

-- The pool that every process starts with has twenty free buffers or more in each class.
pub buf_pool-IsStocked : IsStocked 20 buf_pool
unfolding buf_pool
buf_pool-IsStocked k c = fill-HasStock 20 k m8m 20 _ _ (omega arith) λ a.
    fill-HasStock 20 k m4m 20 _ _ (omega arith) λ b.
      fill-HasStock 20 k m1m 50 _ _ (omega arith) λ d.
        fill-HasStock 20 k m256k 200 _ _ (omega arith) λ e.
          fill-HasStock 20 k m64k 500 _ _ (omega arith) λ f.
            fill-HasStock 20 k m16k 1000 _ _ (omega arith) λ g.
              fill-HasStock 20 k m4k 5000 _ _ (omega arith)
                λ h. absurd (ground (arith, c, a, b, d, e, f, g, h))
