-- ===== src/Buffer/InputBuf/Reading.antt =====
-- input_buf::read_data: what has come in stands behind what waited.
use lars_study.Prelude.{
  ok, ◌-◌, sub64_small, to_int_small, le→ltb, ℕ, ◌+◌, ◌≤◌, ◌<◌, ◌≡◌, ◌≢◌, ◌⊎◌, inl, inr, refl, sym,
  suc, ap, ◌∙◌, Bool, true, false, List, [], ◌∷◌, ◌++◌, Option, none, some, ℤ, pos, negsuc,
  int_bound, arith, stop, assert_failed, length, Returns, Returns-bind, ne→==, eq→==, append-nil,
}
use lars_study.Buffer.IoBuf.{IoBuf, contents}
use lars_study.Buffer.IoBuf.Contents.{
  empty_contents, contents-adjust, adjust-IsValid, head-adjust, capacity-adjust,
}
use lars_study.Buffer.Pool
use lars_study.Buffer.Pool.{Pool, alloc_buf}
use lars_study.Buffer.Pool.Alloc.{alloc_buf-Returns, Allocates, class_le}
use lars_study.Buffer.ReactorBuf.{
  ReactorBuf, Ready, IsReady, Held, bytes_of, capacity_of, ensure, grow, append,
}
use lars_study.Buffer.ReactorBuf.Write.{Grown, grow-Returns, append-Returns}
use lars_study.Buffer.InputBuf.{
  ReadResult, got, failed, interrupted, answer, received, read_loop, read_grown, read_ensured,
  read_data, adjust,
}

-- What a call leaves of the bytes `bs` that the kernel handed over: they stand behind those that
-- waited; or -1 with what waited, on an error or where the block that is wanted is past the largest class.
abbrev pub Reads : ReactorBuf → ℕ → Option (List ℕ) → ℤ × ReactorBuf × Pool → Type 0
Reads m n a (ret, m', p') =
    Pool.IsValid p'
    × Ready m'
    × (((bs : List ℕ) × (a ≡ some bs) × (ret ≡ pos (length bs)) × (bytes_of m' ≡ bytes_of m ++ bs))
        ⊎ ((ret ≡ negsuc 0)
            × (bytes_of m' ≡ bytes_of m)
            × ((a ≡ none) ⊎ (Pool.m8m < capacity_of m + n))))

-- What FIONREAD promises: the `n` bytes that wait are read at once, or the stream has ended.
abbrev pub Announced : ℕ → Option (List ℕ) → Type 0
Announced n none = Unit
Announced n (some bs) = (length bs ≡ 0) ⊎ (length bs ≡ n)

module _ (m : ReactorBuf) (n : ℕ) (b : IoBuf) (p : Pool) (rb : IsReady b) (v : Pool.IsValid p)
    (same : contents b ≡ bytes_of m) (room : b.length + n ≤ b.capacity) where
  received-Returns :
      (bs : List ℕ)
      → Announced n (some bs)
      → Returns (received b (pos n) p bs) (Reads m n (some bs))
  unfolding received
  received-Returns [] k = (v, rb, inl ([], refl, refl, same ∙ sym (append-nil (bytes_of m))))
  received-Returns (x ∷ bs) (inl none_came) = absurd (omega arith)
  received-Returns (x ∷ bs) (inr all_came) =
      rw
        (
          ne→== (suc (length bs)) 0 (omega arith),
          ne→== n 0 (omega arith),
          eq→== (suc (length bs)) n all_came,
        )
        (Returns-bind (append b (x ∷ bs)) _ _ _ (append-Returns b (x ∷ bs) rb (omega arith))
          λ c a. (v, a.1, inl (x ∷ bs, refl, refl, a.0 ∙ ap (λ s. s ++ x ∷ bs) same)))

  read_loop-Returns :
      (r : ReadResult)
      → Announced n (answer r)
      → Returns (read_loop b (pos n) p r) (Reads m n (answer r))
  unfolding read_loop
  read_loop-Returns (got bs) k = received-Returns bs k
  read_loop-Returns failed k = (v, rb, inr (refl, same, inl refl))
  read_loop-Returns (interrupted r) k = read_loop-Returns r k

module _ (n : ℕ) (r : ReadResult) (n_fits : n < int_bound) (k : Announced n (answer r)) where
  held_buffer :
      (b : IoBuf) (p : Pool)
      → IsReady b
      → Pool.IsValid p
      → Returns (read_ensured (pos n) r (some b, p)) (Reads (some b) n (answer r))
  unfolding read_ensured read_grown
  held_buffer b p rb v =
      rw (eq→== b.head 0 rb.at_start)
        (Returns-bind (grow b (pos n) p) _ _ _ (grow-Returns b n p rb v n_fits) grown)
    where
      grown :
          (g : Bool × IoBuf × Pool)
          → Grown b n g
          → Returns (read_grown (pos n) r g) (Reads (some b) n (answer r))
      grown (false, c, q) g = (g.2, rw g.0 rb, inr (refl, rw g.0, inr g.1))
      grown (true, c, q) g = read_loop-Returns (some b) n c q g.1 g.3 g.0 g.2 r k

  fresh_buffer :
      (b : IoBuf) (p : Pool)
      → Allocates n p (some b, p)
      → Returns (read_ensured (pos n) r (some b, p)) (Reads none n (answer r))
  unfolding read_ensured read_grown
  fresh_buffer b p a =
      rw (eq→== b.head 0 a.3)
        (Returns-bind (grow b (pos n) p) _ _ _ (grow-Returns b n p rb a.4 n_fits) grown)
    where
      rb : IsReady b
      rb = record { valid = omega (arith, class_le b.capacity a.1); class = a.1; at_start = a.3 }

      grown :
          (g : Bool × IoBuf × Pool)
          → Grown b n g
          → Returns (read_grown (pos n) r g) (Reads none n (answer r))
      grown (false, c, q) g = absurd (omega (arith, g.3))
      grown (true, c, q) g =
          read_loop-Returns none n c q g.1 g.3 (g.0 ∙ empty_contents b a.2) g.2 r k

  -- With a buffer in order, a well-formed pool and a kernel true to FIONREAD, which announces
  -- less than 2^31 bytes, a read fails no assertion and writes nothing outside the block: it
  -- appends what came in, or reports -1 and keeps what waited; or the process exits for want of a
  -- block.
  pub read_data-Returns :
      (m : ReactorBuf) (p : Pool)
      → Ready m
      → Pool.IsValid p
      → Returns (read_data m (some (pos n)) r p) (Reads m n (answer r))
  unfolding read_data ensure
  read_data-Returns (some b) p rb v = held_buffer b p rb v
  read_data-Returns none p rb v =
      Returns-bind (alloc_buf p (pos n)) _ _ _ (alloc_buf-Returns p n v) allocated
    where
      allocated :
          (q : ReactorBuf × Pool)
          → Allocates n p q
          → Returns (read_ensured (pos n) r q) (Reads none n (answer r))
      allocated (none, q) a =
          unfold read_ensured in (rw a.1 v, tt, inr (refl, refl, inr (omega arith)))
      allocated (some b, q) a = fresh_buffer b q a

-- A read that returns fewer bytes than FIONREAD announced, and some, fails the assertion.
short_read :
    (b : IoBuf) (n : ℕ) (p : Pool) (bs : List ℕ)
    → 0 < length bs
    → length bs ≢ n
    → 0 < n
    → received b (pos n) p bs ≡ stop assert_failed
unfolding received
short_read b n p bs h k l =
    rw (ne→== (length bs) 0 (omega arith), ne→== n 0 (omega arith), ne→== (length bs) n k)

-- Between two calls the bytes stand at the start of the block.
pub adjust-Ready : (m : ReactorBuf) → Held m → Ready (adjust m) × (bytes_of (adjust m) ≡ bytes_of m)
unfolding adjust
adjust-Ready none h = (tt, refl)
adjust-Ready (some b) h = (
  record {
    valid = adjust-IsValid b h.valid;
    class = rw (capacity-adjust b) h.class;
    at_start = head-adjust b;
  },
  contents-adjust b,
)

pub Ready-Held : (m : ReactorBuf) → Ready m → Held m
Ready-Held none r = tt
Ready-Held (some b) r = record { valid = r.valid; class = r.class }

-- The end of the stream, with a buffer at hand.
pub read_nothing :
    (b : IoBuf) (p : Pool)
    → IsReady b
    → read_data (some b) (some (pos 0)) (got []) p ≡ ok (pos 0, some b, p)
unfolding read_data ensure read_ensured read_grown grow read_loop received
read_nothing b p rb = rw (
  eq→== b.head 0 rb.at_start,
  sub64_small b.capacity b.length (omega arith) (omega arith),
  to_int_small (b.capacity - b.length) (omega arith),
  le→ltb (b.capacity - b.length) 0 (omega arith),
)
