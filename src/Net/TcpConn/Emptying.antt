-- ===== src/Net/TcpConn/Emptying.antt =====
-- A writable event in which the socket takes all that waits.
use lars_study.Prelude.{
  ◌≤◌, ◌<◌, ◌≡◌, refl, subst, sym, ◌∙◌, Bool, ◌&&◌, false, true, List, [], ◌∷◌, ◌++◌, append-nil,
  some, arith, length, ok, ==_refl,
}
use lars_study.Buffer.Memory.{length-slice}
use lars_study.Buffer.IoBuf.{IoBuf, contents}
use lars_study.Buffer.ReactorBuf.{Ready, IsReady, bytes_of}
use lars_study.Buffer.OutputBuf.{wrote}
use lars_study.Buffer.OutputBuf.Draining.{drain_whole}
use lars_study.Net.Message.{Message, stream}
use lars_study.Net.EventLoop.{interest, del_event, epollout_only}
use lars_study.Net.EventLoop.Registration.{interest-del_event}
use lars_study.Net.Frames.{Inbound}
use lars_study.Net.TcpConn.{Conn, handle_write, written, unlisten}
use lars_study.Net.TcpConn.Trace.{InOrder, Reach-InOrder, flushed, here, next}

and_false : (x : Bool) → (x && false) ≡ false
and_false true = refl
and_false false = refl

module _ (ms : List Message) (i : Inbound Conn) (b : IoBuf) (v : InOrder (ms, i))
    (waits : i.rest.obuf ≡ some b) (some_wait : 0 < b.length) where
  -- The connection that is left: its block is empty, and the loop no longer waits for EPOLLOUT.
  empties :
      (j : Inbound Conn) × (handle_write (wrote b.length ∷ []) i ≡ ok j)
      × (j.rest.state ≡ i.rest.state)
      × (bytes_of j.rest.obuf ≡ [])
      × ((interest j.rest.loop j.rest.fd).epollout ≡ false)
  unfolding handle_write written unlisten
  empties =
      let ready : IsReady b = subst Ready waits v.output in
      let (m, e, _, none_left, idle) = drain_whole b ready some_wait in
      let c = i.rest in
      (
        record i {
          rest = record c {
            obuf = m;
            wire = c.wire ++ contents b;
            loop = del_event c.loop c.fd epollout_only;
          };
        },
        rw (waits, e, idle),
        refl,
        none_left,
        rw (interest-del_event c.loop c.fd epollout_only c.fd, ==_refl c.fd)
            (and_false (interest c.loop c.fd).epollout),
      )

  -- On a connection in order with bytes waiting, where the socket takes them all: handle_write returns,
  -- the socket has taken the bytes of all messages that were accepted and nothing else, none wait, the
  -- loop no longer waits for EPOLLOUT, and the connection is in order.
  pub handle_write-stream :
      (j : Inbound Conn) × (handle_write (wrote b.length ∷ []) i ≡ ok j)
      × (j.rest.wire ≡ stream ms)
      × (bytes_of j.rest.obuf ≡ [])
      × ((interest j.rest.loop j.rest.fd).epollout ≡ false)
      × InOrder (ms, j)
  handle_write-stream =
      let (j, e, state, none_left, off) = empties in
      let offered : b.length ≤ length (bytes_of i.rest.obuf) =
        rw waits (omega (arith, length-slice b.bytes b.head b.length)) in
      let w =
        Reach-InOrder v
          (next here (flushed ms i j (wrote b.length ∷ []) (offered, tt) e (state ∙ v.is_open))) in
      let whole : j.rest.wire ++ [] ≡ stream ms =
        subst (λ bs. j.rest.wire ++ bs ≡ stream ms) none_left w.bytes in
      (j, e, sym (append-nil j.rest.wire) ∙ whole, none_left, off, w)
