-- ===== src/Buffer/ReactorBuf/Pop.antt =====
-- reactor_buf::pop and reactor_buf::clear: bytes that have been dealt with leave the buffer, and the
-- block goes back to the pool.
use lars_study.Prelude.{
  Returns, Yields-Returns, ℕ, ◌-◌, ◌≤◌, ◌<◌, ◌≡◌, ◌++◌, none, some, ltb, pos, ok, Yields,
  to_int_small, to_size_pos, inl, inr, Bool-cases, arith, refl, le→ltb, lt→ltb, ◌∙◌, ap,
}
use lars_study.Buffer.Memory.{slice}
use lars_study.Buffer.IoBuf
use lars_study.Buffer.IoBuf.{IoBuf, contents}
use lars_study.Buffer.IoBuf.Contents.{
  pop-IsValid, contents-pop, length-pop, capacity-pop, bytes-pop, empty_contents,
}
use lars_study.Buffer.Pool
use lars_study.Buffer.Pool.{Pool, revert}
use lars_study.Buffer.Pool.Revert.{revert-IsValid}
use lars_study.Buffer.ReactorBuf.{ReactorBuf, Held, IsHeld, bytes_of, settle, pop, clear, InBlock}

-- What popping `n` bytes of `b` leaves: the bytes behind them, in the same block if any are left.
abbrev pub Pops : IoBuf → ℕ → ReactorBuf × Pool → Type 0
Pops b n (m, p) =
    Pool.IsValid p × Held m × (contents b ≡ slice b.bytes b.head n ++ bytes_of m) × InBlock b m

settle-Yields :
    (b : IoBuf) (n : ℕ) (p : Pool)
    → IsHeld b
    → Pool.IsValid p
    → n ≤ b.length
    → Yields (settle (IoBuf.pop b n) p) (Pops b n)
unfolding settle
settle-Yields b n p r v h =
    let c = IoBuf.pop b n in
    let held : IsHeld c = record {
      valid = pop-IsValid b n h r.valid;
      class = rw (capacity-pop b n) r.class;
    } in
    elim (Bool-cases (ltb 0 c.length)) [
      | inl more ↦ rw more (v, held, contents-pop b n h r.valid, bytes-pop b n)
      | inr done ↦
          let (p', reverted, v') = revert-IsValid p c v held.class in
          rw (done, reverted)
            (
              v',
              tt,
              contents-pop b n h r.valid
                  ∙ ap (◌++◌ (slice b.bytes b.head n)) (empty_contents c (ground arith)),
              tt,
            )
    ]

-- Popping at most what waits returns, and leaves the bytes behind what was popped: in the same block,
-- or, where none are left, with the block back in the pool.
pub pop-Yields :
    (b : IoBuf) (n : ℕ) (p : Pool)
    → IsHeld b
    → Pool.IsValid p
    → n ≤ b.length
    → Yields (pop (some b) (pos n) p) (Pops b n)
unfolding pop
pop-Yields b n p r v h =
    rw (to_int_small b.length (omega arith), to_size_pos n (omega arith), le→ltb b.length n h)
      (settle-Yields b n p r v h)

-- Clearing a buffer gives its block back; it cannot fail.
pub clear_lem :
    (m : ReactorBuf) (p : Pool)
    → Held m
    → Pool.IsValid p
    → (p' : Pool) × (clear m p ≡ ok (none, p')) × Pool.IsValid p'
unfolding clear
clear_lem none p h v = (p, refl, v)
clear_lem (some b) p h v = let (p', e, v') = revert-IsValid p b v h.class in (p', rw e, v')

-- With bytes left the block stays.
pub pop_rest :
    (b : IoBuf) (n : ℕ) (p : Pool)
    → IoBuf.IsValid b
    → n < b.length
    → pop (some b) (pos n) p ≡ ok (some (IoBuf.pop b n), p)
unfolding pop settle
pop_rest b n p v h = rw (
  to_int_small b.length (omega arith),
  to_size_pos n (omega arith),
  le→ltb b.length n (omega arith),
  length-pop b n (omega arith) v,
  lt→ltb 0 (b.length - n) (omega arith),
)

-- The same among calls that may end the process.
pub pop-Returns :
    (b : IoBuf) (n : ℕ) (p : Pool)
    → IsHeld b
    → Pool.IsValid p
    → n ≤ b.length
    → Returns (pop (some b) (pos n) p) (Pops b n)
pop-Returns b n p r v h =
    Yields-Returns (pop (some b) (pos n) p) (Pops b n) (pop-Yields b n p r v h)
