-- ===== src/Net/Udp/Receiving.antt =====
-- do_read on a row of datagrams, some of which are not messages.
mod Examples
use lars_study.Prelude.{
  ℕ, ◌+◌, ◌-◌, ◌*◌, ◌≤◌, ◌<◌, ◌≡◌, ◌≢◌, refl, sym, ap, subst, ◌∙◌, Bool, true, false, not, ◌||◌,
  List, [], ◌∷◌, ◌++◌, append-nil, append_assoc, arith, map, ℤ, pos, length, length-append,
  take_all, IsInt, Outcome, ok, ◌>>=◌, le→ltb, lt→ltb, fun_ext, ltb_ℤ, eqb_ℤ, to_int, to_u32,
  to_int_small, to_int_big, int_bound, u32_mod, take, ltb, Bool-cases, inl, inr, to_u32_pos,
  to_u32-lt, All,
}
use lars_study.Buffer.Memory.{Memory, slice, store, slice-store_self}
use lars_study.Buffer.IoBuf.{IoBuf}
use lars_study.Net.Message.{
  message_max_size, Message, msg_len, encode, encode_header, encode_header_split, length-encode,
  length-encode_header,
}
use lars_study.Net.Frames.Header.{header_lem}
use lars_study.Net.Udp.{
  UdpServer, RecvResult, datagram, interrupted, Handlers, call, buf_size, deal, do_read,
}
use lars_study.Net.Udp.Exchange.{deal-encode}

-- What comes in: a message from an address, a datagram of at least eight bytes whose header announces
-- another length than is received, and an interruption. A datagram of less than eight bytes is none of
-- these: the rest of its header is what lay in the buffer.
pub data Arrival : Type 0 where
  message_from : ℕ → Message → Arrival
  corrupt_from : ℕ → List ℕ → Arrival
  interruption : Arrival

pub recv_result : Arrival → RecvResult
recv_result (message_from from f) = datagram from (encode f)
recv_result (corrupt_from from bytes) = datagram from bytes
recv_result interruption = interrupted

pub Arrives : Arrival → Type 0
Arrives (message_from from f) = IsInt f.id × (msg_len f ≤ buf_size)
Arrives (corrupt_from from bytes) =
    (id : ℤ) × (len : ℕ) × (body : List ℕ) × (take buf_size bytes ≡ encode_header id len ++ body)
    × (len < u32_mod)
    × (len ≢ 8 + length body)
Arrives interruption = Unit

-- What the handlers make of it: the messages go to them one after the other, each with its sender as
-- the peer. A corrupt datagram leaves nothing but its sender's address.
pub handle_arrivals :
    {S : Type 0} → Handlers (UdpServer S) → List Arrival → UdpServer S → Outcome (UdpServer S)
handle_arrivals hs [] s = ok s
handle_arrivals hs (message_from from f ∷ rest) s = do
  s' ← call (hs f.id) f.id f.body (record s { peer_addr = from })
  handle_arrivals hs rest s'
handle_arrivals hs (corrupt_from from bytes ∷ rest) s =
    handle_arrivals hs rest (record s { peer_addr = from })
handle_arrivals hs (interruption ∷ rest) s = handle_arrivals hs rest s

-- A length that is not the datagram's.
refused_pos :
    (len n : ℕ)
    → len ≢ n
    → (ltb_ℤ (pos message_max_size) (pos len)
        || (not (ltb_ℤ (pos 0) (pos len)) || not (eqb_ℤ (pos len) (pos n))))
      ≡ true
refused_pos len n k = ground arith

-- As an `int`, a length of 2^31 or more is negative.
refused :
    (len n : ℕ)
    → len < u32_mod
    → len ≢ n
    → (ltb_ℤ (pos message_max_size) (to_int len)
        || (not (ltb_ℤ (pos 0) (to_int len)) || not (eqb_ℤ (to_int len) (pos n))))
      ≡ true
refused len n h k = elim (Bool-cases (ltb len int_bound)) [
  | inl small ↦ rw (to_int_small len (ground arith)) (refused_pos len n k)
  | inr big ↦ rw (to_int_big len (ground arith) h)
]

deal-corrupt :
    {S : Type 0} (hs : Handlers S) (buf : Memory) (id : ℤ) (len : ℕ) (body : List ℕ) (s : S)
    → len < u32_mod
    → len ≢ 8 + length body
    → deal hs (store buf 0 (encode_header id len ++ body)) (8 + length body) s ≡ ok s
unfolding deal
deal-corrupt hs buf id len body s h k =
    let n : length (encode_header id len ++ body) ≡ 8 + length body =
      omega (arith, length-append (encode_header id len) body, length-encode_header id len) in
    let kept : to_u32 (pos len) ≡ len = unfold to_u32 in omega arith in
    let m = store buf 0 (encode_header id len ++ body) in
    let (_, l, _, _) =
      header_lem m 0 (8 + length body) (to_u32 id) (to_u32 (pos len)) body (to_u32-lt id)
        (to_u32-lt (pos len))
        (subst (λ k. slice m 0 k ≡ encode_header id len ++ body) n
            (slice-store_self buf 0 (encode_header id len ++ body))
          ∙ encode_header_split id len body) in
    rw (l, kept, refused len (8 + length body) h k)

-- On a row of messages that fit the buffer, of datagrams of at least eight bytes whose header announces
-- another length than is received, and of interruptions, do_read does what the handlers do that get each
-- message whole, in order and from its sender, and none of the other datagrams, whatever the buffer held
-- before.
pub do_read-handle_arrivals :
    {S : Type 0} (hs : Handlers (UdpServer S)) (arrivals : List Arrival) (buf : Memory)
    (s : UdpServer S)
    → All Arrives arrivals
    → do_read hs (map recv_result arrivals) buf s ≡ handle_arrivals hs arrivals s
unfolding do_read handle_arrivals recv_result Arrives
do_read-handle_arrivals hs [] buf s h = refl
do_read-handle_arrivals hs (message_from from f ∷ rest) buf s h =
    let n = length-encode f in
    let s' = record s { peer_addr = from } in
    rw
      (
        take_all buf_size (encode f) (omega (arith, n, h.0.1)),
        n,
        deal-encode f h.0.1 hs buf s' h.0.0,
      )
      (ap (◌>>=◌ (call (hs f.id) f.id f.body s'))
        (fun_ext λ t. do_read-handle_arrivals hs rest (store buf 0 (encode f)) t h.1))
do_read-handle_arrivals hs (corrupt_from from bytes ∷ rest) buf s h =
    let (id, len, body, cut, fits, other) = h.0 in
    let bs = encode_header id len ++ body in
    let n : length bs ≡ 8 + length body =
      omega (arith, length-append (encode_header id len) body, length-encode_header id len) in
    let s' = record s { peer_addr = from } in
    rw (cut, n, deal-corrupt hs buf id len body s' fits other)
      (do_read-handle_arrivals hs rest (store buf 0 bs) s' h.1)
do_read-handle_arrivals hs (interruption ∷ rest) buf s h =
    do_read-handle_arrivals hs rest buf s (h.1)
