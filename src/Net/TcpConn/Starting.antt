-- ===== src/Net/TcpConn/Starting.antt =====
-- A connection from its constructor on.
use lars_study.Prelude.{
  ℕ, ◌≡◌, refl, Bool, true, List, [], none, some, arith, ◌==◌, if◌then◌else◌, ok, ==_refl, Outcome,
}
use lars_study.Buffer.Pool
use lars_study.Buffer.Pool.{Pool}
use lars_study.Net.Message.{Message}
use lars_study.Net.Socket.{Options}
use lars_study.Net.EventLoop.{EventLoop, add_io_event, epollin_only}
use lars_study.Net.Frames.{Inbound}
use lars_study.Net.TcpConn.{Callback, on_read, Conn, tcp_conn, listen_read}
use lars_study.Net.TcpConn.Trace.{InOrder}

-- The whole connection, before anything has come in.
abbrev pub unread : Pool → Conn → Inbound Conn
unread p c = record { ibuf = none; pool = p; rest = c }

module _ (taken ctl : Bool) (loop : EventLoop Callback) (conns : ℕ → Bool) (options : Options)
    (connfd : ℕ) (p : Pool) (valid : Pool.IsValid p) where
  abbrev new_conn : Conn
  new_conn = (tcp_conn taken loop conns options connfd).0

  -- The connection that the build callback gets, to which the loop listens.
  abbrev listened : Conn
  listened = record new_conn { loop = add_io_event loop connfd epollin_only on_read ctl }

  -- It has sent nothing.
  pub tcp_conn-InOrder : InOrder ([], unread p listened)
  unfolding tcp_conn
  tcp_conn-InOrder = record {
    pool_valid = valid;
    input = tt;
    output = tt;
    is_open = refl;
    bytes = refl;
    armed = λ l. absurd (omega arith);
  }

  -- Where the build callback sends the messages `ms`, listen_read leaves a connection on which they are
  -- sent in order, and which its thread knows.
  pub listen_read-InOrder :
      (on_build : Pool → Conn → Outcome (Pool × Conn)) (q : Pool) (d : Conn) (ms : List Message)
      → on_build p listened ≡ ok (q, d)
      → InOrder (ms, unread q d)
      → (e : Conn) × (listen_read ctl (some on_build) p new_conn ≡ ok (q, e))
        × InOrder (ms, unread q e)
        × (e.conns d.fd ≡ true)
  unfolding listen_read tcp_conn
  listen_read-InOrder on_build q d ms built v = (
    record d { conns = λ i. if i == d.fd then true else d.conns i },
    rw built,
    record {
      pool_valid = v.pool_valid;
      input = v.input;
      output = v.output;
      is_open = v.is_open;
      bytes = v.bytes;
      armed = v.armed;
    },
    rw (==_refl d.fd),
  )
