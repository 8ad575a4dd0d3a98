-- ===== src/Buffer/OutputBuf.antt =====
-- output_buf (lars_reactor/include/reactor_buf.h, lars_reactor/src/reactor_buf.cc): writing to the
-- socket. `write_data` stands in Buffer.ReactorBuf; what the kernel answers to `write` is an argument.
pub mod Draining
use lars_study.Prelude.{
  ℕ, ◌-◌, ◌≤◌, ◌<◌, Bool, true, false, List, [], ◌∷◌, ◌++◌, Option, none, some, ◌==◌, ltb,
  if◌then◌else◌, ℤ, pos, negsuc, ltb_ℤ, eqb_ℤ, Outcome, ok, stop, assert_failed, ◌>>=◌,
}
use lars_study.Buffer.Memory.{slice}
use lars_study.Buffer.IoBuf
use lars_study.Buffer.IoBuf.{IoBuf}
use lars_study.Buffer.ReactorBuf.{ReactorBuf, buf_length}

-- One `write` and its repetitions: a number of bytes, -1 with EAGAIN, -1 with another error, or -1
-- with EINTR and then the answer to the next call.
pub data WriteResult : Type 0 where
  wrote : ℕ → WriteResult
  would_block failed : WriteResult
  interrupted : WriteResult → WriteResult

-- The bytes that the kernel took.
abbrev pub taken : WriteResult → ℕ
taken (wrote n) = n
taken would_block = 0
taken failed = 0
taken (interrupted r) = taken r

-- The value returned, the buffer, and the bytes that the kernel took from the start of the block.
unfoldable pub write_out : IoBuf → WriteResult → ℤ × ReactorBuf × List ℕ
write_out b (wrote n) =
    if ltb 0 n
    then (pos n, some (IoBuf.adjust (IoBuf.pop b n)), slice b.bytes 0 n)
    else (pos 0, some b, [])
write_out b would_block = (pos 0, some b, [])
write_out b failed = (negsuc 0, some b, [])
write_out b (interrupted r) = write_out b r

-- output_buf::write2fd
unfoldable pub write2fd : ReactorBuf → WriteResult → Outcome (ℤ × ReactorBuf × List ℕ)
write2fd none r = stop assert_failed
write2fd (some b) r = if b.head == 0 then ok (write_out b r) else stop assert_failed

-- How `drain` ends: an error of the socket, or the buffer empty or the socket full.
pub record Drained : Type 0 where
  pub broken : Bool
  pub obuf : ReactorBuf
  pub sent : List ℕ

unfoldable pub after_write :
    List ℕ → (ReactorBuf → List ℕ → Outcome Drained) → ℤ × ReactorBuf × List ℕ → Outcome Drained
after_write out again (ret, m, bs) =
    if ltb_ℤ ret (pos 0)
    then ok (record { broken = true; obuf = m; sent = out ++ bs })
    else if eqb_ℤ ret (pos 0)
    then ok (record { broken = false; obuf = m; sent = out ++ bs })
    else again m (out ++ bs)

-- The loop of tcp_conn::handle_write and tcp_client::handle_write. Each round takes the next answer
-- of the kernel; where the list ends the socket is full.
unfoldable pub drain : List WriteResult → ReactorBuf → List ℕ → Outcome Drained
unfolding after_write
drain [] m out =
    if ltb_ℤ (pos 0) (buf_length m)
    then (do
      w ← write2fd m would_block
      after_write out (λ m' out'. ok (record { broken = false; obuf = m'; sent = out' })) w)
    else ok (record { broken = false; obuf = m; sent = out })
drain (r ∷ rs) m out =
    let again = drain rs in
    if ltb_ℤ (pos 0) (buf_length m)
    then (do w ← write2fd m r; after_write out again w)
    else ok (record { broken = false; obuf = m; sent = out })

-- The kernel takes no more than it is offered.
abbrev pub Offered : List WriteResult → ℕ → Type 0
Offered [] n = Unit
Offered (r ∷ rs) n = (taken r ≤ n) × Offered rs (n - taken r)
