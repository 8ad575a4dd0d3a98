-- ===== src/Buffer/ReactorBuf.antt =====
-- reactor_buf, input_buf and output_buf (lars_reactor/include/reactor_buf.h,
-- lars_reactor/src/reactor_buf.cc): a connection's buffer, an io_buf of the pool or none.
pub mod Write
pub mod Pop
pub mod Stock
mod Examples
use lars_study.Prelude.{
  ℕ, zero, ◌+◌, Bool, true, false, List, [], ◌∷◌, Option, none, some, ltb, leb, ◌==◌, if◌then◌else◌,
  ℤ, pos, negsuc, to_int, to_size, add64, sub64, ltb_ℤ, not, Outcome, ok, stop, assert_failed,
  undefined, ◌>>=◌, length, ◌≡◌,
}
use lars_study.Buffer.Memory.{store}
use lars_study.Buffer.IoBuf
use lars_study.Buffer.IoBuf.{IoBuf, contents, is_avail}
use lars_study.Buffer.Pool
use lars_study.Buffer.Pool.{Pool, alloc_buf, revert}

-- `m_buf`
abbrev pub ReactorBuf : Type 0
ReactorBuf = Option IoBuf

-- The bytes that wait in the buffer.
abbrev pub bytes_of : ReactorBuf → List ℕ
bytes_of none = []
bytes_of (some b) = contents b

abbrev pub capacity_of : ReactorBuf → ℕ
capacity_of none = 0
capacity_of (some b) = b.capacity

unfoldable pub buf_length : ReactorBuf → ℤ
buf_length none = pos 0
buf_length (some b) = to_int b.length

settle : IoBuf → Pool → Outcome (ReactorBuf × Pool)
settle b p = if is_avail b then ok (some b, p) else (do p' ← revert p b; ok (none, p'))

pub pop : ReactorBuf → ℤ → Pool → Outcome (ReactorBuf × Pool)
unfolding settle
pop none len p = stop assert_failed
pop (some b) len p =
    if not (ltb_ℤ (to_int b.length) len)
    then settle (IoBuf.pop b (to_size len)) p
    else stop assert_failed

pub clear : ReactorBuf → Pool → Outcome (ReactorBuf × Pool)
clear none p = ok (none, p)
clear (some b) p = do p' ← revert p b; ok (none, p')

-- No buffer yet: take one from the pool for `need` bytes.
unfoldable pub ensure : ReactorBuf → ℤ → Pool → Outcome (ReactorBuf × Pool)
ensure none need p = alloc_buf p need
ensure (some b) need p = ok (some b, p)

replace : IoBuf → ReactorBuf × Pool → Outcome (Bool × IoBuf × Pool)
replace b (none, p) = ok (false, b, p)
replace b (some new_buf, p) = do c ← IoBuf.copy new_buf b; p' ← revert p b; ok (true, c, p')

-- Too little room left: move to a larger buffer. `false` where the pool has none.
unfoldable pub grow : IoBuf → ℤ → Pool → Outcome (Bool × IoBuf × Pool)
unfolding replace
grow b need p =
    if ltb_ℤ (to_int (sub64 b.capacity b.length)) need
    then (do r ← alloc_buf p (to_int (add64 b.capacity (to_size need))); replace b r)
    else ok (true, b, p)

-- `memcpy(m_data + m_length, ...)`: the offset is `m_length`, whatever `m_head` is.
pub append : IoBuf → List ℕ → Outcome IoBuf
append b bs =
    if leb (b.length + length bs) b.capacity
    then ok (record b { bytes = store b.bytes b.length bs; length = add64 b.length (length bs) })
    else stop undefined

append_grown : List ℕ → Bool × IoBuf × Pool → Outcome (ℤ × ReactorBuf × Pool)
append_grown bs (false, b, p) = ok (negsuc 0, some b, p)
append_grown bs (true, b, p) = do b' ← append b bs; ok (pos (length bs), some b', p)

write_ensured : List ℕ → ReactorBuf × Pool → Outcome (ℤ × ReactorBuf × Pool)
write_ensured bs (none, p) = ok (negsuc 0, none, p)
write_ensured bs (some b, p) = do r ← grow b (pos (length bs)) p; append_grown bs r

-- output_buf::write_data: the value returned, the buffer and the pool.
pub write_data : ReactorBuf → List ℕ → Pool → Outcome (ℤ × ReactorBuf × Pool)
write_data m bs p = do r ← ensure m (pos (length bs)) p; write_ensured bs r

-- A buffer between two calls: valid, of a class of the pool, its bytes at the start of the block.
pub record IsReady (b : IoBuf) : Type 0 where
  pub valid : IoBuf.IsValid b
  pub class : Pool.is_class b.capacity ≡ true
  pub at_start : b.head ≡ 0

abbrev pub Ready : ReactorBuf → Type 0
Ready none = Unit
Ready (some b) = IsReady b

-- A buffer in the midst of a call: its bytes may stand anywhere in the block.
pub record IsHeld (b : IoBuf) : Type 0 where
  pub valid : IoBuf.IsValid b
  pub class : Pool.is_class b.capacity ≡ true

abbrev pub Held : ReactorBuf → Type 0
Held none = Unit
Held (some b) = IsHeld b

-- The block's bytes are those of `b`'s, also the ones that are no longer in use.
abbrev pub InBlock : IoBuf → ReactorBuf → Type 0
InBlock b none = Unit
InBlock b (some c) = c.bytes ≡ b.bytes
