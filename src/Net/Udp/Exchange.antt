-- ===== src/Net/Udp/Exchange.antt =====
-- A message from one end to the other.
use lars_study.Prelude.{
  ℕ, ◌+◌, ◌-◌, ◌≤◌, ◌<◌, ◌≡◌, sym, subst, ◌∙◌, Bool, true, List, [], ◌∷◌, ◌++◌, append-nil, arith,
  ℤ, pos, length, length-append, take_all, IsInt, ok, stop, undefined, ◌>>=◌, le→ltb, lt→ltb,
  ==_refl,
}
use lars_study.Buffer.Memory.{Memory, slice, store, slice-store_self}
use lars_study.Buffer.IoBuf.{IoBuf}
use lars_study.Net.Message.{
  message_max_size, Message, msg_len, encode, encode_header, length-encode, encode_lem,
  length-encode_header,
}
use lars_study.Net.Frames.Delivery.{message_at}
use lars_study.Net.Udp.{UdpServer, Handlers, call, datagram, buf_size, deal, do_read, send}

module _ {S : Type 0} (f : Message) (fits : msg_len f ≤ buf_size) where
  -- The message in the buffer goes to its handler.
  pub deal-encode :
      (hs : Handlers S) (buf : Memory) (s : S)
      → IsInt f.id
      → deal hs (store buf 0 (encode f)) (msg_len f) s ≡ call (hs f.id) f.id f.body s
  unfolding deal
  deal-encode hs buf s id_fits =
      let n = length-encode f in
      let b : IoBuf = record {
        bytes = store buf 0 (encode f);
        capacity = 0;
        length = 0;
        head = 0;
      } in
      let whole : slice b.bytes 0 (msg_len f) ≡ encode f ++ [] =
        subst (λ k. slice b.bytes 0 k ≡ encode f ++ []) n
          (slice-store_self buf 0 (encode f) ∙ sym (append-nil (encode f))) in
      let (id, len, body, _) =
        message_at b 0 (msg_len f) f [] (record { id_fits = id_fits; size_fits = omega arith })
          whole in
      let e : msg_len f - 8 ≡ length f.body = omega arith in
      rw (
        len,
        le→ltb message_max_size (msg_len f) (omega arith),
        lt→ltb 0 (msg_len f) (omega arith),
        ==_refl (msg_len f),
        le→ltb (msg_len f) 8 (omega arith),
        id,
        e,
        body,
      )

module _ {S : Type 0} (f : Message) (fits : msg_len f ≤ buf_size) where
  -- The message goes to the peer.
  pub send-encode :
      (s : UdpServer S)
      → send true f.id f.body s
        ≡ ok (pos (msg_len f), record s { sent = s.sent ++ (s.peer_addr, encode f) ∷ [] })
  unfolding send
  send-encode s = rw (
    ← encode_lem f,
    length-encode f,
    le→ltb (65527 - 8) (length f.body) (omega arith),
    le→ltb buf_size (msg_len f) fits,
  )

  pub do_read-encode :
      (hs : Handlers (UdpServer S)) (from : ℕ) (buf : Memory) (s : UdpServer S)
      → IsInt f.id
      → do_read hs (datagram from (encode f) ∷ []) buf s
        ≡ (do t ← call (hs f.id) f.id f.body (record s { peer_addr = from }); ok t)
  unfolding do_read
  do_read-encode hs from buf s id_fits =
      let n = length-encode f in
      rw (
        take_all buf_size (encode f) (omega (arith, n)),
        n,
        deal-encode f fits hs buf (record s { peer_addr = from }) id_fits,
      )

-- A message that fits a buffer is sent as one datagram to the peer, and an end that receives it hands it
-- to its handler whole, whatever its buffer held before, with the sender's address as the new peer.
pub do_read-send :
    {S T : Type 0} (hs : Handlers (UdpServer T)) (f : Message) (from : ℕ) (buf : Memory)
    (s : UdpServer S) (t : UdpServer T)
    → IsInt f.id
    → msg_len f ≤ buf_size
    → (bytes : List ℕ) × (send true f.id f.body s
        ≡ ok (pos (msg_len f), record s { sent = s.sent ++ (s.peer_addr, bytes) ∷ [] }))
      × (do_read hs (datagram from bytes ∷ []) buf t
          ≡ (do u ← call (hs f.id) f.id f.body (record t { peer_addr = from }); ok u))
do_read-send hs f from buf s t id_fits fits =
    (encode f, send-encode f fits s, do_read-encode f fits hs from buf t id_fits)

-- A message that passes the check of its size and does not fit the buffer is written past its end.
pub send_overruns :
    {S : Type 0} (taken : Bool) (id : ℤ) (body : List ℕ) (s : UdpServer S)
    → buf_size < 8 + length body
    → length body ≤ 65519
    → send taken id body s ≡ stop undefined
unfolding send
send_overruns taken id body s large passes = rw (
  le→ltb (65527 - 8) (length body) (omega arith),
  lt→ltb buf_size (length (encode_header id (8 + length body) ++ body)) (
      omega (
        arith,
        length-append (encode_header id (8 + length body)) body,
        length-encode_header id (8 + length body),
      )),
)
