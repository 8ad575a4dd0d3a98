-- ===== src/Buffer/IoBuf.antt =====
-- io_buf (lars_reactor/include/io_buf.h, lars_reactor/src/io_buf.cc): a block of bytes with the
-- range of those in use. The link `m_next` is the tail of the pool's list (Buffer.Pool).
pub mod Contents
use lars_study.Prelude.{
  ℕ, ◌+◌, ◌≤◌, Bool, List, ltb, leb, if◌then◌else◌, add64, sub64, Outcome, ok, stop, undefined,
}
use lars_study.Buffer.Memory.{Memory, slice, store}

pub record IoBuf : Type 0 where
  pub bytes : Memory
  pub capacity : ℕ
  pub length : ℕ
  pub head : ℕ

-- `new io_buf(cap)`. C++ leaves the new bytes indeterminate; here they are 0.
abbrev pub io_buf : ℕ → IoBuf
io_buf cap = record { bytes = λ _. 0; capacity = cap; length = 0; head = 0 }

unfoldable pub clear : IoBuf → IoBuf
clear b = record b { head = 0; length = 0 }

-- The bytes of the range in use.
abbrev pub contents : IoBuf → List ℕ
contents b = slice b.bytes b.head b.length

pub adjust : IoBuf → IoBuf
adjust b =
    if ltb 0 b.head
    then record b {
      bytes = if ltb 0 b.length then store b.bytes 0 (contents b) else b.bytes;
      head = 0;
    }
    else b

-- `memcpy` to the start of the block: undefined where the block is too small.
pub copy : IoBuf → IoBuf → Outcome IoBuf
copy b other =
    if leb other.length b.capacity
    then ok (record b { bytes = store b.bytes 0 (contents other); length = other.length; head = 0 })
    else stop undefined

-- `m_head += len; m_length -= len`, in the wrapping arithmetic of `size_t`.
pub pop : IoBuf → ℕ → IoBuf
pop b len = record b { head = add64 b.head len; length = sub64 b.length len }

abbrev pub is_avail : IoBuf → Bool
is_avail b = ltb 0 b.length

-- The range in use lies in the block, and the block is one that an `int` can measure.
pub record IsValid (b : IoBuf) : Type 0 where
  pub within : b.head + b.length ≤ b.capacity
  pub small : b.capacity ≤ 8388608
