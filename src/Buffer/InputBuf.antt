-- ===== src/Buffer/InputBuf.antt =====
-- input_buf (lars_reactor/include/reactor_buf.h, lars_reactor/src/reactor_buf.cc): what the kernel
-- answers to `ioctl(FIONREAD)` and `read` is an argument.
pub mod Reading
pub mod Stock
pub mod Unannounced
use lars_study.Prelude.{
  ℕ, Bool, true, false, List, [], ◌∷◌, Option, none, some, ◌==◌, ltb, leb, not, ◌&&◌, if◌then◌else◌,
  ℤ, pos, negsuc, eqb_ℤ, Outcome, ok, stop, assert_failed, ◌>>=◌, length,
}
use lars_study.Buffer.IoBuf
use lars_study.Buffer.IoBuf.{IoBuf}
use lars_study.Buffer.Pool.{Pool}
use lars_study.Buffer.ReactorBuf.{ReactorBuf, ensure, grow, append}

-- One `read` and its repetitions: bytes (none at the end of the stream), -1 with an error, or -1 with
-- EINTR and then the answer to the next call.
pub data ReadResult : Type 0 where
  got : List ℕ → ReadResult
  failed : ReadResult
  interrupted : ReadResult → ReadResult

-- The bytes of the answer that ends the loop; -1 is `none`.
abbrev pub answer : ReadResult → Option (List ℕ)
answer (got bs) = some bs
answer failed = none
answer (interrupted r) = answer r

-- The bytes that came in, of the `need` that `ioctl` announced.
received : IoBuf → ℤ → Pool → List ℕ → Outcome (ℤ × ReactorBuf × Pool)
received b need p bs =
    if length bs == 0
    then ok (pos 0, some b, p)
    else if not (eqb_ℤ need (pos 0)) && not (eqb_ℤ (pos (length bs)) need)
    then stop assert_failed
    else do b' ← append b bs; ok (pos (length bs), some b', p)

read_loop : IoBuf → ℤ → Pool → ReadResult → Outcome (ℤ × ReactorBuf × Pool)
unfolding received
read_loop b need p (got bs) = received b need p bs
read_loop b need p failed = ok (negsuc 0, some b, p)
read_loop b need p (interrupted r) = read_loop b need p r

read_grown : ℤ → ReadResult → Bool × IoBuf × Pool → Outcome (ℤ × ReactorBuf × Pool)
read_grown need r (false, b, p) = ok (negsuc 0, some b, p)
read_grown need r (true, b, p) = read_loop b need p r

read_ensured : ℤ → ReadResult → ReactorBuf × Pool → Outcome (ℤ × ReactorBuf × Pool)
read_ensured need r (none, p) = ok (negsuc 0, none, p)
read_ensured need r (some b, p) =
    if b.head == 0 then (do g ← grow b need p; read_grown need r g) else stop assert_failed

-- input_buf::read_data: the value returned, the buffer and the pool. `avail` is `need_read`, `none`
-- where `ioctl` fails.
pub read_data : ReactorBuf → Option ℤ → ReadResult → Pool → Outcome (ℤ × ReactorBuf × Pool)
read_data m none r p = ok (negsuc 0, m, p)
read_data m (some need) r p = do e ← ensure m need p; read_ensured need r e

pub adjust : ReactorBuf → ReactorBuf
adjust none = none
adjust (some b) = some (IoBuf.adjust b)
