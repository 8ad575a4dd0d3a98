-- ===== src/Net/TcpClient.antt =====
-- tcp_client (lars_reactor/include/tcp_client.h, lars_reactor/src/tcp_client.cc): the client's end of
-- a connection, which connects again whenever it is lost.
pub mod Receiving
pub mod Connecting
pub mod Hangup
mod Examples
use lars_study.Prelude.{
  ℕ, ◌+◌, Bool, true, false, not, List, [], ◌∷◌, ◌++◌, Option, none, some, if◌then◌else◌, ℤ, pos,
  negsuc, ltb_ℤ, eqb_ℤ, Outcome, ok, stop, exit_failure, assert_failed, ◌>>=◌, length,
}
use lars_study.Net.Socket.{create_socket}
use lars_study.Buffer.IoBuf.{IoBuf}
use lars_study.Buffer.Pool.{Pool}
use lars_study.Buffer.ReactorBuf
use lars_study.Buffer.ReactorBuf.{ReactorBuf, buf_length, write_data}
use lars_study.Buffer.InputBuf
use lars_study.Buffer.InputBuf.{ReadResult, read_data}
use lars_study.Buffer.OutputBuf.{WriteResult, Drained, drain}
use lars_study.Net.Message.{message_header_size, encode_header}
use lars_study.Net.Frames.{Inbound, Handlers, frame_loop}
use lars_study.Net.EventLoop.{
  EventLoop, epollin_only, epollout_only, add_io_event, del_io_event, del_event,
}

-- The member functions that are bound as callbacks.
pub data Callback : Type 0 where
  on_read on_write on_connect : Callback

pub record Client : Type 0 where
  pub fd : ℕ
  pub is_connected : Bool
  pub obuf : ReactorBuf
  pub loop : EventLoop Callback
  pub wire : List ℕ

-- What `connect` returns: a positive number, 0, or -1 with EINPROGRESS or another error.
pub data ConnectResult : Type 0 where
  positive at_once in_progress refused : ConnectResult

-- A callback of the user, if one is set.
abbrev pub Hook : Type 0
Hook = Option (Pool → Client → Outcome (Pool × Client))

-- What a client's calls meet: the user's callbacks, and the kernel's answers to `epoll_ctl` (true for
-- 0) and to the next `connect`.
pub record Env : Type 0 where
  pub on_build : Hook
  pub on_close : Hook
  pub ctl : Bool
  pub connect : ConnectResult

module _ (env : Env) where
  abbrev run_hook : Hook → Pool → Client → Outcome (Pool × Client)
  run_hook none p c = ok (p, c)
  run_hook (some hook) p c = hook p c

  -- A connection is there: listen for input, and tell the user.
  established : Pool → Client → Outcome (Pool × Client)
  established p c = run_hook env.on_build p (record c {
    is_connected = true;
    loop = add_io_event c.loop c.fd epollin_only on_read env.ctl;
  })

  connecting : ConnectResult → Pool → Client → Outcome (Pool × Client)
  unfolding established
  connecting positive p c = established p c
  connecting at_once p c = ok (p, c)
  connecting in_progress p c =
      ok (p, record c { loop = add_io_event c.loop c.fd epollout_only on_connect env.ctl })
  connecting refused p c = stop exit_failure

  pub do_connect : Pool → Client → Outcome (Pool × Client)
  unfolding connecting
  do_connect p c = connecting env.connect p c

  -- `so_error` is true where SO_ERROR is 0.
  pub handle_connect : Bool → Pool → Client → Outcome (Pool × Client)
  unfolding established
  handle_connect so_error p c =
      let c' = record c { loop = del_io_event c.loop c.fd } in
      if so_error then established p c' else stop exit_failure

  pub clean_conn : Inbound Client → Outcome (Inbound Client)
  unfolding do_connect
  clean_conn i = do
    (ibuf, p) ← ReactorBuf.clear i.ibuf i.pool
    (obuf, p') ← ReactorBuf.clear i.rest.obuf p
    let c = record (i.rest) {
      loop = del_io_event i.rest.loop i.rest.fd;
      obuf = obuf;
      is_connected = false;
    }
    (q, d) ← run_hook env.on_close p' c
    (q', e) ← do_connect q d
    ok (record { ibuf = ibuf; pool = q'; rest = e })

  -- The header pointer is read anew in each round.
  parse : Handlers Client → Inbound Client → Outcome (Inbound Client)
  parse hs i = elim i.ibuf [
    | none ↦ ok i
    | some b ↦ do
      j ← frame_loop (b.length + 1) (λ x. x.head) clean_conn hs i
      ok (record j { ibuf = InputBuf.adjust j.ibuf })
  ]

  handle_read_data : Handlers Client → Client → ℤ × ReactorBuf × Pool → Outcome (Inbound Client)
  unfolding parse
  handle_read_data hs c (has_read, ibuf, p) =
      let i : Inbound Client = record { ibuf = ibuf; pool = p; rest = c } in
      if ltb_ℤ has_read (pos 0)
      then clean_conn i
      else if eqb_ℤ has_read (pos 0)
      then clean_conn i
      else parse hs i

  -- tcp_client::handle_read. `first` is the answer to its own `ioctl`, which it makes no other use of.
  pub handle_read :
      Option ℤ → Option ℤ → ReadResult → Handlers Client → Inbound Client → Outcome (Inbound Client)
  unfolding handle_read_data
  handle_read first avail r hs i =
      if not i.rest.is_connected then stop assert_failed else elim first [
        | none ↦ ok i
        | some need_read ↦ do w ← read_data i.ibuf avail r i.pool; handle_read_data hs i.rest w
      ]

  send_body : Bool → List ℕ → Client → ℤ × ReactorBuf × Pool → Outcome (ℤ × Pool × Client)
  send_body activate_epollout bs c (ret, obuf, p) =
      if ltb_ℤ ret (pos 0)
      then (do
        (obuf', p') ← ReactorBuf.pop obuf (pos message_header_size) p
        ok (negsuc 0, p', record c { obuf = obuf' }))
      else if activate_epollout
      then ok (
        pos 0,
        p,
        record c { obuf = obuf; loop = add_io_event c.loop c.fd epollout_only on_write env.ctl },
      )
      else ok (pos 0, p, record c { obuf = obuf })

  send_header : Bool → List ℕ → Client → ℤ × ReactorBuf × Pool → Outcome (ℤ × Pool × Client)
  send_header activate_epollout bs c (ret, obuf, p) =
      if ltb_ℤ ret (pos 0)
      then ok (negsuc 0, p, record c { obuf = obuf })
      else (do w ← write_data obuf bs p; send_body activate_epollout bs c w)

  -- tcp_client::send
  pub send : ℤ → List ℕ → Pool → Client → Outcome (ℤ × Pool × Client)
  send msgid bs p c = if not c.is_connected then ok (negsuc 0, p, c) else do
    let activate_epollout = eqb_ℤ (buf_length c.obuf) (pos 0)
    w ← write_data c.obuf (encode_header msgid (message_header_size + length bs)) p
    send_header activate_epollout bs c w

  unlisten : Inbound Client → Inbound Client
  unlisten i =
      let c = i.rest in
      if eqb_ℤ (buf_length c.obuf) (pos 0)
      then record i { rest = record c { loop = del_event c.loop c.fd epollout_only } }
      else i

  written : Inbound Client → Drained → Outcome (Inbound Client)
  unfolding unlisten
  written i d =
      let c = i.rest in
      let i' = record i { rest = record c { obuf = d.obuf; wire = c.wire ++ d.sent } } in
      if d.broken then (do j ← clean_conn i'; ok (unlisten j)) else ok (unlisten i')

  -- tcp_client::handle_write
  pub handle_write : List WriteResult → Inbound Client → Outcome (Inbound Client)
  unfolding written
  handle_write rs i = do d ← drain rs i.rest.obuf []; written i d

-- tcp_client::tcp_client, with the answer to `socket`. The address goes to connect alone, and an `Env` is
-- the kernel's answer to the connect of one client.
unfoldable pub tcp_client : Option ℕ → EventLoop Callback → Outcome Client
tcp_client socket loop = do
  fd ← create_socket socket
  ok (record { fd = fd; is_connected = false; obuf = none; loop = loop; wire = [] })
