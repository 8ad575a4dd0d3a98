-- ===== src/Net/TcpConn/Closing.antt =====
-- tcp_conn::close.
use lars_study.Prelude.{◌≡◌, refl, ◌∙◌, false, [], ◌∷◌, ◌++◌, none, arith, ok, ==_refl}
use lars_study.Buffer.Pool
use lars_study.Buffer.Pool.{Pool}
use lars_study.Buffer.ReactorBuf.{Held}
use lars_study.Buffer.ReactorBuf.Pop.{clear_lem}
use lars_study.Net.Frames.{Inbound}
use lars_study.Net.EventLoop.{no_events, interest}
use lars_study.Net.EventLoop.Registration.{interest-del_io_event}
use lars_study.Net.TcpConn.{Conn, connected, disconnected, shut, close}

-- Closing an open connection with valid buffers, on a well-formed pool, gives both of its buffers
-- back, takes its descriptor out of the loop and out of the thread's connections, and calls the
-- close callback for it once; what the socket took stays as it was.
pub close_lem :
    (i : Inbound Conn)
    → i.rest.state ≡ connected
    → Held i.ibuf
    → Held i.rest.obuf
    → Pool.IsValid i.pool
    → (j : Inbound Conn) × (close i ≡ ok j)
      × Pool.IsValid j.pool
      × (j.ibuf ≡ none)
      × (j.rest.obuf ≡ none)
      × (j.rest.state ≡ disconnected)
      × (interest j.rest.loop i.rest.fd ≡ no_events)
      × (j.rest.conns i.rest.fd ≡ false)
      × (j.rest.closed ≡ i.rest.closed ++ i.rest.fd ∷ [])
      × (j.rest.wire ≡ i.rest.wire)
unfolding close
close_lem i is_open hi ho v =
    let (p, e, vp) = clear_lem i.ibuf i.pool hi v in
    let (q, f, vq) = clear_lem i.rest.obuf p ho vp in
    let c = i.rest in
    (
      record { ibuf = none; pool = q; rest = shut c none },
      rw (is_open, e, f),
      vq,
      refl,
      refl,
      refl,
      interest-del_io_event c.loop c.fd c.fd ∙ rw ==_refl,
      rw ==_refl,
      refl,
      refl,
    )

-- Closing twice is closing once.
pub close_twice : (i j : Inbound Conn) → close i ≡ ok j → close j ≡ ok j
unfolding close
close_twice i j h = ground arith
