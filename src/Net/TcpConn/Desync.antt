-- ===== src/Net/TcpConn/Desync.antt =====
-- tcp_conn::send, where the body finds no room behind a header that did.
use lars_study.Prelude.{
  ℕ, ◌+◌, ◌≤◌, ◌<◌, ◌≡◌, ap, Bool, List, [], ◌∷◌, some, arith, ok, stop, assert_failed, negsuc,
  length, int_bound,
}
use lars_study.Buffer.Memory.{store}
use lars_study.Buffer.IoBuf
use lars_study.Buffer.IoBuf.{IoBuf}
use lars_study.Buffer.IoBuf.Contents.{head-pop, length-pop}
use lars_study.Buffer.Pool
use lars_study.Buffer.Pool.{Pool}
use lars_study.Buffer.ReactorBuf.{IsReady}
use lars_study.Buffer.ReactorBuf.Write.{write_fits, write_full}
use lars_study.Buffer.ReactorBuf.Pop.{pop_rest}
use lars_study.Buffer.OutputBuf.{WriteResult}
use lars_study.Buffer.OutputBuf.Draining.{drain_moved}
use lars_study.Net.Message.{Message, encode_header, length-encode_header}
use lars_study.Net.Frames.{Inbound}
use lars_study.Net.TcpConn.{Conn, send, send_header, send_body, handle_write}

-- With output waiting, a block that takes the header, and a body that neither it nor any block of
-- the pool takes with it, `send` reports -1, and the next writable event fails an assertion,
-- whatever the socket would take.
pub send_desync :
    (ctl : Bool) (f : Message) (p : Pool) (c : Conn) (b : IoBuf)
    → c.obuf ≡ some b
    → IsReady b
    → 0 < b.length
    → b.length + 8 ≤ b.capacity
    → length f.body < int_bound
    → b.capacity < b.length + 8 + length f.body
    → Pool.m8m < b.capacity + length f.body
    → (d : Conn) × (send ctl f.id f.body p c ≡ ok (negsuc 0, p, d))
      × ((r : WriteResult) (rs : List WriteResult) (i : Inbound Conn)
          → i.rest ≡ d
          → handle_write (r ∷ rs) i ≡ stop assert_failed)
unfolding send send_header send_body handle_write
send_desync ctl f p c b e r waits room h full large =
    let hd : List ℕ = encode_header f.id (8 + length f.body) in
    let n : length hd ≡ 8 = length-encode_header f.id (8 + length f.body) in
    let b' : IoBuf = record b { bytes = store b.bytes b.length hd; length = b.length + 8 } in
    let r' : IsReady b' = record { valid = omega arith; class = r.class; at_start = r.at_start } in
    let c' : Conn = record c { obuf = some (IoBuf.pop b' 8) } in
    (
      c',
      rw (
        e,
        write_fits b hd p r (omega arith),
        n,
        write_full b' f.body p r' h large (omega arith),
        pop_rest b' 8 p r'.valid (omega arith),
      ),
      λ s ss i same.
          let at_obuf : i.rest.obuf ≡ some (IoBuf.pop b' 8) = ap (λ (x : Conn). x.obuf) same in
          rw (
            at_obuf,
            drain_moved s ss (IoBuf.pop b' 8) []
                (omega (arith, head-pop b' 8 (omega arith) r'.valid))
                (omega (arith, length-pop b' 8 (omega arith) r'.valid))
                (omega (arith, length-pop b' 8 (omega arith) r'.valid)),
          ),
    )
