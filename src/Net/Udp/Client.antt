-- ===== src/Net/Udp/Client.antt =====
-- udp_client (lars_reactor/src/udp_client.cc) with a udp_server at the other end.
mod Examples
use lars_study.Prelude.{
  ℕ, ◌+◌, ◌≤◌, ◌≡◌, ◌∙◌, refl, Bool, true, List, [], ◌∷◌, ◌++◌, Option, some, ℤ, pos, IsInt,
  Outcome, ok, ◌>>=◌,
}
use lars_study.Buffer.Memory.{Memory}
use lars_study.Net.Message.{Message, msg_len, encode}
use lars_study.Net.Udp
use lars_study.Net.Udp.{UdpServer, RecvResult, datagram, buf_size, Handlers, call}
use lars_study.Net.Udp.Exchange.{send-encode, do_read-encode}

-- The state is that of a server, with `m_server_addr` for `m_client_addr`.
abbrev pub UdpClient : Type 0 → Type 0
UdpClient = UdpServer

module _ {S : Type 0} where
  -- udp_client::do_read, which has the statements of udp_server::do_read.
  unfoldable pub do_read :
      Handlers (UdpClient S) → List RecvResult → Memory → UdpClient S → Outcome (UdpClient S)
  do_read = Udp.do_read

  -- udp_client::send, which has the statements of udp_server::send.
  unfoldable pub send : Bool → ℤ → List ℕ → UdpClient S → Outcome (ℤ × UdpClient S)
  send = Udp.send

-- A handler that answers a message with a message, where sendto takes it.
abbrev pub answering :
    {T : Type 0} → (List ℕ → Message) → ℤ → List ℕ → UdpServer T → Outcome (UdpServer T)
answering answer msgid body s = do
  let g = answer body
  (sent, s') ← Udp.send true g.id g.body s
  ok s'

-- Where a server answers the messages of a number, and the question `f` and its answer fit a buffer:
-- send puts one datagram on its way to the server; the server's do_read, which gets it from the address
-- `at` with whatever in its buffer, sends one datagram back to this address; and the client's do_read
-- hands the answer to its handler, whole and with the server as its peer.
pub do_read-answering :
    {S T : Type 0} (answer : List ℕ → Message) (hs : Handlers (UdpServer T))
    (cs : Handlers (UdpClient S)) (f : Message) (at server : ℕ) (buf back : Memory)
    (s : UdpServer T) (c d : UdpClient S)
    → hs f.id ≡ some (answering answer)
    → IsInt f.id
    → msg_len f ≤ buf_size
    → IsInt (answer f.body).id
    → msg_len (answer f.body) ≤ buf_size
    → (asked : List ℕ) × (answered : List ℕ) × (send true f.id f.body c
        ≡ ok (pos (msg_len f), record c { sent = c.sent ++ (c.peer_addr, asked) ∷ [] }))
      × (Udp.do_read hs (datagram at asked ∷ []) buf s
          ≡ ok (record s { peer_addr = at; sent = s.sent ++ (at, answered) ∷ [] }))
      × (do_read cs (datagram server answered ∷ []) back d ≡ (do
        let g = answer f.body
        e ← call (cs g.id) g.id g.body (record d { peer_addr = server })
        ok e))
unfolding do_read send
do_read-answering answer hs cs f at server buf back s c d registered id fits reply_id reply_fits =
    let g = answer f.body in
    (
      encode f,
      encode g,
      send-encode f fits c,
      do_read-encode f fits hs at buf s id
          ∙ rw (registered, send-encode g reply_fits (record s { peer_addr = at })),
      do_read-encode g reply_fits cs server back d reply_id,
    )
