-- ===== src/Net/TcpConn.antt =====
-- tcp_conn (lars_reactor/include/tcp_conn.h, lars_reactor/src/tcp_conn.cc): the server's end of a
-- connection. An `Inbound Conn` is the whole connection with the pool; a `Conn` is what handlers
-- reach of it.
pub mod Closing
pub mod Sending
pub mod Stocked
pub mod Room
pub mod Receiving
pub mod Writing
pub mod Trace
pub mod Desync
pub mod Starting
pub mod Emptying
mod Examples
use lars_study.Prelude.{
  ℕ, ◌+◌, Bool, true, false, List, [], ◌∷◌, ◌++◌, Option, none, some, ◌==◌, if◌then◌else◌, ℤ, pos,
  negsuc, ltb_ℤ, eqb_ℤ, Outcome, ok, ◌>>=◌, length,
}
use lars_study.Buffer.IoBuf.{IoBuf}
use lars_study.Buffer.Pool.{Pool}
use lars_study.Buffer.ReactorBuf
use lars_study.Buffer.ReactorBuf.{ReactorBuf, buf_length, write_data}
use lars_study.Buffer.InputBuf
use lars_study.Buffer.InputBuf.{ReadResult, read_data}
use lars_study.Buffer.OutputBuf.{WriteResult, Drained, drain}
use lars_study.Net.Message.{message_header_size, encode_header}
use lars_study.Net.Frames.{Inbound, Handlers, frame_loop}
use lars_study.Net.Socket.{Options, set_nodelay}
use lars_study.Net.EventLoop.{
  EventLoop, epollin_only, epollout_only, add_io_event, del_io_event, del_event,
}

-- CONN_STATE
pub data ConnState : Type 0 where
  disconnected connecting connected disconnecting : ConnState

abbrev pub is_connected : ConnState → Bool
is_connected connected = true
is_connected _ = false

-- The member functions that are bound as callbacks.
pub data Callback : Type 0 where
  on_read on_write : Callback

-- `conns` is `t_event_loop_conns`, `closed` the descriptors for which `m_close_callback` was called,
-- and `wire` what the socket has taken.
pub record Conn : Type 0 where
  pub fd : ℕ
  pub state : ConnState
  pub obuf : ReactorBuf
  pub loop : EventLoop Callback
  pub conns : ℕ → Bool
  pub closed : List ℕ
  pub wire : List ℕ

-- The constructor: the connection, and the options of its socket. `taken` is whether setsockopt takes
-- the option, and `conns` are the connections of the thread. The server counts the connection.
pub tcp_conn : Bool → EventLoop Callback → (ℕ → Bool) → Options → ℕ → Conn × Options
tcp_conn taken loop conns options connfd = (
  record {
    fd = connfd;
    state = connected;
    obuf = none;
    loop = loop;
    conns = conns;
    closed = [];
    wire = [];
  },
  set_nodelay taken true options,
)

-- `ctl` is what epoll_ctl returns; `on_build` is `m_on_build_callback`.
pub listen_read :
    Bool → Option (Pool → Conn → Outcome (Pool × Conn)) → Pool → Conn → Outcome (Pool × Conn)
listen_read ctl on_build p c = do
  let c' = record c { loop = add_io_event c.loop c.fd epollin_only on_read ctl }
  (p', d) ← (elim on_build [ none ↦ ok (p, c') | some callback ↦ callback p c' ])
  ok (p', record d { conns = λ i. if i == d.fd then true else d.conns i })

-- What `close` leaves of the connection but its buffers.
abbrev pub shut : Conn → ReactorBuf → Conn
shut c obuf = record c {
  state = disconnected;
  loop = del_io_event c.loop c.fd;
  obuf = obuf;
  conns = λ i. if i == c.fd then false else c.conns i;
  closed = c.closed ++ c.fd ∷ [];
}

pub close : Inbound Conn → Outcome (Inbound Conn)
close i =
    let c = i.rest in
    if is_connected c.state
    then (do
      (ibuf, p) ← ReactorBuf.clear i.ibuf i.pool
      (obuf, p') ← ReactorBuf.clear c.obuf p
      ok (record { ibuf = ibuf; pool = p'; rest = shut c obuf }))
    else ok i

send_body : Bool → Bool → List ℕ → Conn → ℤ × ReactorBuf × Pool → Outcome (ℤ × Pool × Conn)
send_body ctl activate_epollout bs c (ret, obuf, p) =
    if ltb_ℤ ret (pos 0)
    then (do
      (obuf', p') ← ReactorBuf.pop obuf (pos message_header_size) p
      ok (negsuc 0, p', record c { obuf = obuf' }))
    else if activate_epollout
    then ok (
      pos 0,
      p,
      record c { obuf = obuf; loop = add_io_event c.loop c.fd epollout_only on_write ctl },
    )
    else ok (pos 0, p, record c { obuf = obuf })

send_header : Bool → Bool → List ℕ → Conn → ℤ × ReactorBuf × Pool → Outcome (ℤ × Pool × Conn)
send_header ctl activate_epollout bs c (ret, obuf, p) =
    if ltb_ℤ ret (pos 0)
    then ok (negsuc 0, p, record c { obuf = obuf })
    else (do w ← write_data obuf bs p; send_body ctl activate_epollout bs c w)

-- The value returned, the pool and the connection.
pub send : Bool → ℤ → List ℕ → Pool → Conn → Outcome (ℤ × Pool × Conn)
send ctl msgid bs p c = do
  let activate_epollout = eqb_ℤ (buf_length c.obuf) (pos 0)
  w ← write_data c.obuf (encode_header msgid (message_header_size + length bs)) p
  send_header ctl activate_epollout bs c w

-- `data = m_ibuf.data()` is read once, before the loop.
parse : Handlers Conn → Inbound Conn → Outcome (Inbound Conn)
parse hs i = elim i.ibuf [
  | none ↦ ok i
  | some b ↦ do
    j ← frame_loop (b.length + 1) (λ _. b.head) close hs i
    ok (record j { ibuf = InputBuf.adjust j.ibuf })
]

handle_read_data : Handlers Conn → Conn → ℤ × ReactorBuf × Pool → Outcome (Inbound Conn)
unfolding parse
handle_read_data hs c (has_read, ibuf, p) =
    let i : Inbound Conn = record { ibuf = ibuf; pool = p; rest = c } in
    if ltb_ℤ has_read (pos 0)
    then close i
    else if eqb_ℤ has_read (pos 0)
    then close i
    else parse hs i

-- tcp_conn::handle_read, with the kernel's answers to `ioctl` and `read`.
pub handle_read : Option ℤ → ReadResult → Handlers Conn → Inbound Conn → Outcome (Inbound Conn)
unfolding handle_read_data
handle_read avail r hs i = do w ← read_data i.ibuf avail r i.pool; handle_read_data hs i.rest w

-- `if (m_obuf.length() == 0) m_loop->del_io_event(m_sock.fd(), EPOLLOUT)`
unlisten : Inbound Conn → Inbound Conn
unlisten i =
    let c = i.rest in
    if eqb_ℤ (buf_length c.obuf) (pos 0)
    then record i { rest = record c { loop = del_event c.loop c.fd epollout_only } }
    else i

written : Inbound Conn → Drained → Outcome (Inbound Conn)
unfolding unlisten
written i d =
    let c = i.rest in
    let i' = record i { rest = record c { obuf = d.obuf; wire = c.wire ++ d.sent } } in
    if d.broken then (do j ← close i'; ok (unlisten j)) else ok (unlisten i')

-- tcp_conn::handle_write, with the kernel's answers to `write`.
pub handle_write : List WriteResult → Inbound Conn → Outcome (Inbound Conn)
unfolding written
handle_write rs i = do d ← drain rs i.rest.obuf []; written i d
