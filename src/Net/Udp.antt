-- ===== src/Net/Udp.antt =====
-- udp_server and udp_client (lars_reactor/src/udp_server.cc, lars_reactor/src/udp_client.cc), whose
-- do_read and send are the same but for the name of the address: one message in each datagram.
pub mod Client
pub mod Exchange
pub mod Opening
pub mod Receiving
use lars_study.Prelude.{
  ℕ, ◌+◌, ◌-◌, Bool, ◌||◌, not, List, [], ◌∷◌, ◌++◌, Option, none, some, ltb, if◌then◌else◌, ℤ, pos,
  negsuc, ltb_ℤ, eqb_ℤ, to_int, length, take, Outcome, ok, stop, undefined, ◌>>=◌,
}
use lars_study.Buffer.Memory.{Memory, slice, store}
use lars_study.Net.Message.{message_header_size, message_max_size, decode32, encode_header}

-- The size of `m_read_buf` and of `m_write_buf`.
abbrev pub buf_size : ℕ
buf_size = 1024

-- What `recvfrom` answers: the sender's address and a datagram, -1 with EINTR, or -1 with another
-- error.
pub data RecvResult : Type 0 where
  datagram : ℕ → List ℕ → RecvResult
  interrupted failed : RecvResult

-- `peer_addr` is `m_client_addr`, in udp_client `m_server_addr`, which recvfrom overwrites. `sent` lists
-- the datagrams that were sent and where to, and `state` is what handlers reach besides.
pub record UdpServer (S : Type 0) : Type 0 where
  pub peer_addr : ℕ
  pub sent : List (ℕ × List ℕ)
  pub state : S

-- `S` is what handlers reach, the connection included.
abbrev pub Handlers : Type 0 → Type 0
Handlers S = ℤ → Option (ℤ → List ℕ → S → Outcome S)

module _ {S : Type 0} where
  abbrev pub call : Option (ℤ → List ℕ → S → Outcome S) → ℤ → List ℕ → S → Outcome S
  call none msgid body s = ok s
  call (some handler) msgid body s = handler msgid body s

  -- A datagram of `pkg_len` bytes lies in the buffer. Where it is shorter than a header and the bytes
  -- behind it make up a fitting length, the handler would get a negative length.
  pub deal : Handlers S → Memory → ℕ → S → Outcome S
  deal hs buf pkg_len s =
      let len = to_int (decode32 (slice buf 4 4)) in
      if ltb_ℤ (pos message_max_size) len
        || (not (ltb_ℤ (pos 0) len) || not (eqb_ℤ len (pos pkg_len)))
      then ok s
      else if ltb pkg_len message_header_size
      then stop undefined
      else let msgid = to_int (decode32 (slice buf 0 4)) in
        call (hs msgid) msgid (slice buf 8 (pkg_len - 8)) s

module _ {S : Type 0} where
  -- do_read. A datagram is cut to the size of the buffer. Where the list ends there is nothing left
  -- to receive.
  pub do_read :
      Handlers (UdpServer S) → List RecvResult → Memory → UdpServer S → Outcome (UdpServer S)
  unfolding deal
  do_read hs [] buf s = ok s
  do_read hs (datagram from bs ∷ rs) buf s = do
    let pkg = take buf_size bs
    let buf' = store buf 0 pkg
    s' ← deal hs buf' (length pkg) (record s { peer_addr = from })
    do_read hs rs buf' s'
  do_read hs (interrupted ∷ rs) buf s = do_read hs rs buf s
  do_read hs (failed ∷ rs) buf s = ok s

  -- send: the value returned. `taken` is whether `sendto` takes the datagram.
  pub send : Bool → ℤ → List ℕ → UdpServer S → Outcome (ℤ × UdpServer S)
  send taken msgid bs s =
      let bytes = encode_header msgid (message_header_size + length bs) ++ bs in
      if ltb (message_max_size - message_header_size) (length bs)
      then ok (negsuc 0, s)
      else if ltb buf_size (length bytes)
      then stop undefined
      else if taken
      then ok (pos (length bytes), record s { sent = s.sent ++ (s.peer_addr, bytes) ∷ [] })
      else ok (negsuc 0, s)
