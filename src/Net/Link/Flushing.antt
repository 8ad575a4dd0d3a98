-- ===== src/Net/Link/Flushing.antt =====
-- A server whose socket takes all that waits.
use lars_study.Prelude.{
  ℕ, suc, ◌<◌, ◌≤◌, ◌≡◌, refl, subst, sym, ◌∙◌, List, [], ◌∷◌, ◌++◌, All, append-nil, none, some,
  arith, length, zero,
}
use lars_study.Buffer.Memory.{length-slice}
use lars_study.Buffer.IoBuf.{IoBuf}
use lars_study.Buffer.ReactorBuf.{ReactorBuf, bytes_of}
use lars_study.Buffer.OutputBuf.{wrote}
use lars_study.Net.Message.{Message, stream, IsSendable}
use lars_study.Net.Frames.{Inbound, Handlers}
use lars_study.Net.TcpConn.{Conn}
use lars_study.Net.TcpConn.Trace
use lars_study.Net.TcpConn.Trace.{InOrder}
use lars_study.Net.TcpConn.Emptying.{handle_write-stream}
use lars_study.Net.TcpClient.{Client, Env}
use lars_study.Net.Link.{Link, serves, Reach, here, next}

nothing : (bs : List ℕ) → length bs ≡ 0 → bs ≡ []
nothing [] e = refl
nothing (x ∷ bs) e = absurd (omega (arith, e))

-- Where nothing waits, the socket has taken all.
all_taken :
    (ms : List Message) (i : Inbound Conn)
    → InOrder (ms, i)
    → bytes_of i.rest.obuf ≡ []
    → i.rest.wire ≡ stream ms
all_taken ms i v e =
    sym (append-nil i.rest.wire) ∙ subst (λ bs. i.rest.wire ++ bs ≡ stream ms) e v.bytes

module _ (env : Env) (hs : Handlers Client) (h : ℕ) (k : Link) (v : InOrder (k.sent, k.server))
    (sendable : All IsSendable k.sent) where
  abbrev pub Flushed : Type 0
  Flushed =
      (i : Inbound Conn) × Reach env hs h k (record k { server = i })
      × (i.rest.wire ≡ stream k.sent)

  block_flushes : (b : IoBuf) (n : ℕ) → b.length ≡ n → k.server.rest.obuf ≡ some b → Flushed
  block_flushes b zero empty e =
      let none_wait : bytes_of k.server.rest.obuf ≡ [] =
        rw e (nothing _ (length-slice b.bytes b.head b.length ∙ empty)) in
      (k.server, here, all_taken k.sent k.server v none_wait)
  block_flushes b (suc n) more e =
      let some_wait : 0 < b.length = omega arith in
      let (j, wrote_all, on_wire, _, _, order) =
        handle_write-stream k.sent k.server b v e some_wait in
      let offered : b.length ≤ length (bytes_of k.server.rest.obuf) =
        rw e (omega (arith, length-slice b.bytes b.head b.length)) in
      (
        j,
        next here (
            serves k k.sent j
              (Trace.flushed k.sent k.server j (wrote b.length ∷ []) (offered, tt) wrote_all
                order.is_open)
              sendable),
        on_wire,
      )

  flushes : (m : ReactorBuf) → k.server.rest.obuf ≡ m → Flushed
  flushes none e = (k.server, here, all_taken k.sent k.server v (rw e refl))
  flushes (some b) e = block_flushes b b.length refl e

  -- A link can go on to where the socket has taken the bytes of all messages.
  pub Reach-flushed : Flushed
  Reach-flushed = flushes k.server.rest.obuf refl
