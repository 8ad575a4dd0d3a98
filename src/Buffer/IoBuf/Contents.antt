-- ===== src/Buffer/IoBuf/Contents.antt =====
-- What the operations of an io_buf do to its bytes.
use lars_study.Prelude.{
  ℕ, ◌+◌, ◌-◌, ◌≤◌, ◌≡◌, refl, subst, [], ◌++◌, arith, ltb, add64_small, sub64_small, inl, inr,
  Bool-cases, leb, Spares, le→leb, Returns,
}
use lars_study.Buffer.Memory.{slice, store, length-slice, slice-store_self, slice-split}
use lars_study.Buffer.IoBuf.{IoBuf, IsValid, contents, adjust, clear, copy, pop}

pub clear-IsValid : (b : IoBuf) → IsValid b → IsValid (clear b)
unfolding clear
clear-IsValid b v = ground arith

pub adjust-IsValid : (b : IoBuf) → IsValid b → IsValid (adjust b)
unfolding adjust
adjust-IsValid b v = ground arith

pub head-adjust : (b : IoBuf) → (adjust b).head ≡ 0
unfolding adjust
head-adjust b = ground arith

pub length-adjust : (b : IoBuf) → (adjust b).length ≡ b.length
unfolding adjust
length-adjust b = ground arith

-- Moving the unread bytes to the front of the block keeps them.
pub contents-adjust : (b : IoBuf) → contents (adjust b) ≡ contents b
unfolding adjust
contents-adjust b = elim (Bool-cases (ltb 0 b.head)) [
  | inr e ↦ rw (e, adjust)
  | inl e ↦ elim (Bool-cases (ltb 0 b.length)) [
    | inl f ↦
        rw (e, f, adjust)
          (subst (λ n. slice (store b.bytes 0 (contents b)) 0 n ≡ contents b)
            (length-slice b.bytes b.head b.length) (slice-store_self b.bytes 0 (contents b)))
    | inr f ↦ let z : b.length ≡ 0 = ground arith in rw (e, f, adjust) (unfold slice in rw z)
  ]
]

pub copy-Returns :
    (b other : IoBuf)
    → other.length ≤ b.capacity
    → b.capacity ≤ 8388608
    → Returns (copy b other) λ c.
      (contents c ≡ contents other)
      × IsValid c
      × (c.head ≡ 0)
      × (c.capacity ≡ b.capacity)
      × (c.length ≡ other.length)
unfolding copy
copy-Returns b other h k = rw (le→leb _ _ h) (
  subst (λ n. slice (store b.bytes 0 (contents other)) 0 n ≡ contents other)
      (length-slice other.bytes other.head other.length)
      (slice-store_self b.bytes 0 (contents other)),
  omega arith,
  refl,
  refl,
  refl,
)

-- Popping bytes
pub pop-IsValid : (b : IoBuf) (len : ℕ) → len ≤ b.length → IsValid b → IsValid (pop b len)
unfolding pop
pop-IsValid b len h v =
    rw (add64_small b.head len (omega arith), sub64_small b.length len h (omega arith))
      (omega arith)

pub contents-pop :
    (b : IoBuf) (len : ℕ)
    → len ≤ b.length
    → IsValid b
    → contents b ≡ slice b.bytes b.head len ++ contents (pop b len)
unfolding pop
contents-pop b len h v =
    rw (add64_small b.head len (omega arith), sub64_small b.length len h (omega arith))
      (slice-split b.bytes b.head len b.length h)

pub length-pop :
    (b : IoBuf) (len : ℕ) → len ≤ b.length → IsValid b → (pop b len).length ≡ b.length - len
unfolding pop
length-pop b len h v = sub64_small b.length len h (omega arith)

pub capacity-pop : (b : IoBuf) (len : ℕ) → (pop b len).capacity ≡ b.capacity
unfolding pop
capacity-pop b len = refl

pub bytes-pop : (b : IoBuf) (len : ℕ) → (pop b len).bytes ≡ b.bytes
unfolding pop
bytes-pop b len = refl

pub empty_contents : (b : IoBuf) → b.length ≡ 0 → contents b ≡ []
unfolding slice
empty_contents b e = rw e

pub capacity-adjust : (b : IoBuf) → (adjust b).capacity ≡ b.capacity
unfolding adjust
capacity-adjust b = ground arith

pub head-pop : (b : IoBuf) (len : ℕ) → len ≤ b.length → IsValid b → (pop b len).head ≡ b.head + len
unfolding pop
head-pop b len h v = add64_small b.head len (omega arith)

pub copy-Spares : (b other : IoBuf) → Spares (copy b other) (λ c. Unit {0})
unfolding copy
copy-Spares b other = elim (Bool-cases (leb other.length b.capacity)) [
  | inl fits ↦ rw fits tt
  | inr large ↦ rw large tt
]
