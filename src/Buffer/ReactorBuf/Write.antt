-- ===== src/Buffer/ReactorBuf/Write.antt =====
-- output_buf::write_data: appending to a connection's output.
use lars_study.Prelude.{
  add64_lt, ℕ, ◌+◌, ◌-◌, ◌≤◌, ◌<◌, ◌≡◌, ◌⊎◌, Bool, true, false, List, ◌++◌, none, some, ltb, ℤ, pos,
  negsuc, to_int, ok, length, Returns, Returns-bind, to_int_small, to_size_pos, add64_small,
  sub64_small, int_bound, inl, inr, Bool-cases, arith, refl, subst, le→leb, lt→leb, stop, undefined,
  le→ltb, lt→ltb, zero-add,
}
use lars_study.Buffer.Memory.{store, slice, slice-store_append}
use lars_study.Buffer.IoBuf.{IoBuf, contents, copy}
use lars_study.Buffer.IoBuf.Contents.{copy-Returns, empty_contents}
use lars_study.Buffer.Pool
use lars_study.Buffer.Pool.{Pool, alloc_buf, revert}
use lars_study.Buffer.Pool.Alloc.{
  alloc_buf-Returns, alloc_buf-to_int, Allocates, class_le, alloc_buf_too_large,
}
use lars_study.Buffer.Pool.Revert.{revert-IsValid}
use lars_study.Buffer.ReactorBuf.{
  ReactorBuf, Ready, IsReady, bytes_of, capacity_of, ensure, grow, replace, append, append_grown,
  write_ensured, write_data,
}

-- What `grow` leaves for `n` more bytes.
abbrev pub Grown : IoBuf → ℕ → Bool × IoBuf × Pool → Type 0
Grown b n (false, c, p) =
    (c ≡ b) × (Pool.m8m < b.capacity + n) × Pool.IsValid p × (b.capacity < b.length + n)
Grown b n (true, c, p) =
    (contents c ≡ contents b) × IsReady c × (c.length + n ≤ c.capacity) × Pool.IsValid p

replace-Returns :
    (b : IoBuf) (n : ℕ) (p : Pool)
    → IsReady b
    → Pool.IsValid p
    → (r : ReactorBuf × Pool) → b.capacity < b.length + n
    → Allocates (b.capacity + n) p r
    → Returns (replace b r) (Grown b n)
unfolding replace
replace-Returns b n p r v (none, p') l a = (refl, a.0, rw a.1 v, l)
replace-Returns b n p r v (some c, p') l a =
    Returns-bind (copy c b) _ _ _ (copy-Returns c b (omega arith) (class_le c.capacity a.1))
      λ d copied.
        let (p'', reverted, v'') = revert-IsValid p' b a.4 r.class in
        rw reverted (
          copied.0,
          record { valid = copied.1; class = rw copied.3 a.1; at_start = copied.2 },
          omega arith,
          v'',
        )

pub grow-Returns :
    (b : IoBuf) (n : ℕ) (p : Pool)
    → IsReady b
    → Pool.IsValid p
    → n < int_bound
    → Returns (grow b (pos n) p) (Grown b n)
unfolding grow
grow-Returns b n p r v h =
    rw
      (
        sub64_small b.capacity b.length (omega arith) (omega arith),
        to_int_small (b.capacity - b.length) (omega arith),
      )
      (elim (Bool-cases (ltb (b.capacity - b.length) n)) [
        | inr fits ↦ rw fits (refl, r, ground arith, v)
        | inl full ↦
            rw (full, to_size_pos n h, add64_lt b.capacity n (omega arith))
              (Returns-bind (alloc_buf p (to_int (b.capacity + n))) _ _ _
                (alloc_buf-to_int p (b.capacity + n) v (omega arith))
                (λ q a. replace-Returns b n p r v q (ground arith) a))
      ])

pub append-Returns :
    (b : IoBuf) (bs : List ℕ)
    → IsReady b
    → b.length + length bs ≤ b.capacity
    → Returns (append b bs) λ c. (contents c ≡ contents b ++ bs) × IsReady c
unfolding append
append-Returns b bs r h =
    rw (le→leb _ _ h, add64_small b.length (length bs) (omega arith))
      (
        rw r.at_start (
            subst
              (λ k.
                slice (store b.bytes k bs) 0 (b.length + length bs)
                ≡ slice b.bytes 0 b.length ++ bs)
              (zero-add b.length) (slice-store_append b.bytes 0 b.length bs)),
        record { valid = omega arith; class = r.class; at_start = r.at_start },
      )

pub append_past :
    (b : IoBuf) (bs : List ℕ) → b.capacity < b.length + length bs → append b bs ≡ stop undefined
unfolding append
append_past b bs h = rw (lt→leb (b.length + length bs) b.capacity h)

-- What `write_data` reports and leaves: the bytes stand behind those that waited; or -1 and the
-- buffer's bytes as they were, where the block that is wanted is past the largest class.
abbrev pub Writes : ReactorBuf → List ℕ → ℤ × ReactorBuf × Pool → Type 0
Writes m bs (ret, m', p') =
    Pool.IsValid p'
    × Ready m'
    × (((ret ≡ pos (length bs)) × (bytes_of m' ≡ bytes_of m ++ bs))
        ⊎ ((ret ≡ negsuc 0) × (bytes_of m' ≡ bytes_of m) × (Pool.m8m < capacity_of m + length bs)))

append_grown-Returns :
    (b : IoBuf) (bs : List ℕ) (r : Bool × IoBuf × Pool)
    → length bs < int_bound
    → IsReady b
    → Grown b (length bs) r
    → Returns (append_grown bs r) (Writes (some b) bs)
unfolding append_grown
append_grown-Returns b bs (false, c, p) h r g = (g.2, rw g.0 r, inr (refl, rw g.0, g.1))
append_grown-Returns b bs (true, c, p) h r g =
    Returns-bind (append c bs) _ _ _ (append-Returns c bs g.1 g.2)
      λ d a. (g.3, a.1, inl (refl, rw (a.0, g.0)))

-- A buffer fresh from the pool has the room that was asked for: it need not grow.
write_fresh :
    (b : IoBuf) (bs : List ℕ) (p : Pool)
    → length bs < int_bound
    → Allocates (length bs) p (some b, p)
    → Returns (write_ensured bs (some b, p)) (Writes none bs)
unfolding write_ensured
write_fresh b bs p h a =
    Returns-bind (grow b (pos (length bs)) p) _ _ _ (grow-Returns b (length bs) p r a.4 h) appended
  where
    r : IsReady b
    r = record { valid = omega (arith, class_le b.capacity a.1); class = a.1; at_start = a.3 }

    appended :
        (g : Bool × IoBuf × Pool)
        → Grown b (length bs) g
        → Returns (append_grown bs g) (Writes none bs)
    appended (false, c, q) g = absurd (omega (arith, g.3))
    appended (true, c, q) g =
        unfold append_grown in
        Returns-bind (append c bs) _ _ _ (append-Returns c bs g.1 g.2)
          λ d w. (g.3, w.1, inl (refl, rw (w.0, g.0, empty_contents b a.2)))

-- With a buffer in order and a well-formed pool, appending less than 2^31 bytes never fails an
-- assertion and never writes outside the block. It appends exactly the given bytes behind those
-- that wait, or it reports -1 and keeps what waits, and that only where the old block and the new
-- bytes together are past the largest class; or the process exits for want of a block.
pub write_data-Returns :
    (m : ReactorBuf) (bs : List ℕ) (p : Pool)
    → Ready m
    → Pool.IsValid p
    → length bs < int_bound
    → Returns (write_data m bs p) (Writes m bs)
unfolding write_data ensure
write_data-Returns (some b) bs p r v h =
    unfold write_ensured in
    Returns-bind (grow b (pos (length bs)) p) _ _ _ (grow-Returns b (length bs) p r v h)
      λ g a. append_grown-Returns b bs g h r a
write_data-Returns none bs p r v h =
    Returns-bind (alloc_buf p (pos (length bs))) _ _ _ (alloc_buf-Returns p (length bs) v) written
  where
    written :
        (q : ReactorBuf × Pool)
        → Allocates (length bs) p q
        → Returns (write_ensured bs q) (Writes none bs)
    written (none, p') a = unfold write_ensured in (rw a.1 v, tt, inr (refl, refl, omega arith))
    written (some b, p') a = write_fresh b bs p' h (a.0, a.1, a.2, a.3, a.4)

-- The two ways of a buffer that is held already: the block has room, or no block has.
pub write_fits :
    (b : IoBuf) (bs : List ℕ) (p : Pool)
    → IsReady b
    → b.length + length bs ≤ b.capacity
    → write_data (some b) bs p
      ≡ ok (
        pos (length bs),
        some (record b { bytes = store b.bytes b.length bs; length = b.length + length bs }),
        p,
      )
unfolding write_data ensure write_ensured grow append append_grown
write_fits b bs p r h = rw (
  sub64_small b.capacity b.length (omega arith) (omega arith),
  to_int_small (b.capacity - b.length) (omega arith),
  le→ltb (b.capacity - b.length) (length bs) (omega arith),
  le→leb _ _ h,
  add64_small b.length (length bs) (omega arith),
)

pub write_full :
    (b : IoBuf) (bs : List ℕ) (p : Pool)
    → IsReady b
    → length bs < int_bound
    → Pool.m8m < b.capacity + length bs
    → b.capacity < b.length + length bs
    → write_data (some b) bs p ≡ ok (negsuc 0, some b, p)
unfolding write_data ensure write_ensured grow replace append_grown
write_full b bs p r h large full = rw (
  sub64_small b.capacity b.length (omega arith) (omega arith),
  to_int_small (b.capacity - b.length) (omega arith),
  lt→ltb (b.capacity - b.length) (length bs) (omega arith),
  to_size_pos (length bs) h,
  add64_lt b.capacity (length bs) (omega arith),
  alloc_buf_too_large p (b.capacity + length bs) large (omega arith),
)

-- Without a buffer, the first block is written to.
pub write_first :
    (b : IoBuf) (bs : List ℕ) (p q : Pool)
    → alloc_buf p (pos (length bs)) ≡ ok (some b, q)
    → write_data none bs p ≡ write_data (some b) bs q
unfolding write_data ensure
write_first b bs p q e = rw e
