-- ===== src/Net/TcpConn/Sending.antt =====
-- tcp_conn::send.
use lars_study.Prelude.{
  ℕ, ◌+◌, ◌≤◌, ◌<◌, ◌≡◌, ◌⊎◌, inl, inr, refl, ap, sym, ◌∙◌, Bool, true, false, List, ◌++◌,
  append_assoc, none, some, arith, ==_refl, ℤ, pos, negsuc, eqb_ℤ, length, length-append, int_bound,
  le→ltb, Returns, Returns-mono, Returns-bind, Returns-bind_eq, ok, to_int_small, Bool-cases,
}
use lars_study.Buffer.Memory.{slice, length-slice}
use lars_study.Buffer.Pool
use lars_study.Buffer.Pool.{Pool}
use lars_study.Buffer.ReactorBuf
use lars_study.Buffer.ReactorBuf.{
  ReactorBuf, Ready, IsReady, IsHeld, bytes_of, capacity_of, buf_length, write_data,
}
use lars_study.Buffer.ReactorBuf.Write.{Writes, write_data-Returns}
use lars_study.Buffer.ReactorBuf.Pop.{Pops, pop-Returns}
use lars_study.Net.Message.{Message, encode, encode_header, length-encode_header, encode_lem}
use lars_study.Net.EventLoop.{interest}
use lars_study.Net.EventLoop.Registration.{interest-add_io_event}
use lars_study.Net.TcpConn.{Conn, send, send_header, send_body}

-- Output that waits is waited for: the loop is told of EPOLLOUT.
abbrev pub IsArmed : Conn → Type 0
IsArmed c = 0 < length (bytes_of c.obuf) → (interest c.loop c.fd).epollout ≡ true

-- The test on the buffer's length, on its bytes.
pub idle_lem :
    (m : ReactorBuf) → Ready m → eqb_ℤ (buf_length m) (pos 0) ≡ false → 0 < length (bytes_of m)
unfolding buf_length
idle_lem none r e = cc e
idle_lem (some b) r e =
    let n = length-slice b.bytes b.head b.length in
    let e' = rw (to_int_small b.length (omega arith)) at e in ground arith

pub empty_lem :
    (m : ReactorBuf) → Ready m → eqb_ℤ (buf_length m) (pos 0) ≡ true → length (bytes_of m) ≡ 0
unfolding buf_length
empty_lem none r e = refl
empty_lem (some b) r e =
    let n = length-slice b.bytes b.head b.length in
    let e' = rw (to_int_small b.length (omega arith)) at e in ground arith

-- The header goes in, and leaves a block beside which the body is past the largest class.
abbrev pub NoRoom : Pool → Conn → Message → Type 0
NoRoom before c f =
    (m : ReactorBuf) × (p : Pool) × (write_data c.obuf (encode_header f.id (8 + length f.body))
        before
      ≡ ok (pos 8, m, p))
    × (Pool.m8m < capacity_of m + length f.body)

-- What a call with the pool `before` leaves. It returns 0 with the message behind what waited, ready to go out; or -1 and
-- all as it was, where there is no room for the header; or -1 where there is room for the header and
-- not for the body: then the first eight bytes that waited are gone, and the header stays.
abbrev pub Sends : Pool → Conn → Message → ℤ × Pool × Conn → Type 0
Sends before c f (ret, p, d) =
    Pool.IsValid p
    × (d.wire ≡ c.wire)
    × (d.state ≡ c.state)
    × (((ret ≡ pos 0)
          × Ready d.obuf
          × (bytes_of d.obuf ≡ bytes_of c.obuf ++ encode f)
          × (IsArmed c → IsArmed d))
        ⊎ ((ret ≡ negsuc 0)
            × Ready d.obuf
            × (bytes_of d.obuf ≡ bytes_of c.obuf)
            × (Pool.m8m < capacity_of c.obuf + 8))
        ⊎ ((ret ≡ negsuc 0)
            × ((first : List ℕ) × (length first ≡ 8)
                × (bytes_of c.obuf ++ encode_header f.id (8 + length f.body)
                    ≡ first ++ bytes_of d.obuf))
            × NoRoom before c f))

module _ (ctl : Bool) (before : Pool) (c : Conn) (f : Message) (rc : Ready c.obuf) where
  abbrev header : List ℕ
  header = encode_header f.id (8 + length f.body)

  abbrev activate : Bool
  activate = eqb_ℤ (buf_length c.obuf) (pos 0)

  -- The header that is given up: the first eight bytes of the buffer.
  drop_header :
      (m : ReactorBuf) (p : Pool)
      → Ready m
      → Pool.IsValid p
      → bytes_of m ≡ bytes_of c.obuf ++ header
      → Returns (ReactorBuf.pop m (pos 8) p) λ q.
        Pool.IsValid q.1
        × ((first : List ℕ) × (length first ≡ 8)
            × (bytes_of c.obuf ++ header ≡ first ++ bytes_of q.0))
  drop_header none p r v e = absurd (
      omega (
        arith,
        ap length e,
        length-append (bytes_of c.obuf) header,
        length-encode_header f.id (8 + length f.body),
      ))
  drop_header (some b) p r v e =
      let n = length-slice b.bytes b.head b.length in
      let l : 8 ≤ b.length = omega (
        arith,
        n,
        ap length e,
        length-append (bytes_of c.obuf) header,
        length-encode_header f.id (8 + length f.body),
      ) in
      Returns-mono (ReactorBuf.pop (some b) (pos 8) p) (Pops b 8) _
        (pop-Returns b 8 p (record { valid = r.valid; class = r.class }) v l)
        λ q popped.
          (popped.0, (slice b.bytes b.head 8, length-slice b.bytes b.head 8, sym e ∙ popped.2))

  send_body-Returns :
      (m : ReactorBuf) (p : Pool)
      → write_data c.obuf header before ≡ ok (pos 8, m, p)
      → bytes_of m ≡ bytes_of c.obuf ++ header
      → (w : ℤ × ReactorBuf × Pool) → Writes m f.body w
      → Returns (send_body ctl activate f.body c w) (Sends before c f)
  unfolding send_body
  send_body-Returns m q written e (ret, m', p) (v, r, inl (fine, all)) =
      let whole : bytes_of m' ≡ bytes_of c.obuf ++ encode f =
        all
        ∙ ap (λ s. s ++ f.body) e
        ∙ append_assoc (bytes_of c.obuf) header f.body
        ∙ ap (◌++◌ (bytes_of c.obuf)) (sym (encode_lem f)) in
      rw (fine, le→ltb (length f.body) 0 (omega arith))
        (elim (Bool-cases activate) [
          | inl now ↦ rw now (
            v,
            refl,
            refl,
            inl (refl, r, whole, λ a l. rw (interest-add_io_event, ==_refl) (ground arith)),
          )
          | inr later ↦
              rw later (v, refl, refl, inl (refl, r, whole, λ a l. a (idle_lem c.obuf rc later)))
        ])
  send_body-Returns m q written e (ret, m', p) (v, r, inr (failed, same, large)) = rw failed (
      Returns-bind (ReactorBuf.pop m' (pos 8) p) _ _ _ (drop_header m' p r v (same ∙ e))
        λ q' dropped. (
          dropped.0,
          refl,
          refl,
          inr (inr (refl, (dropped.1.0, dropped.1.1, dropped.1.2), (m, q, written, large))),
        ))

  send_header-Returns :
      (w : ℤ × ReactorBuf × Pool)
      → length f.body < int_bound
      → write_data c.obuf header before ≡ ok w
      → Writes c.obuf header w
      → Returns (send_header ctl activate f.body c w) (Sends before c f)
  unfolding send_header
  send_header-Returns (ret, m, p) h written (v, r, inl (fine, all)) =
      rw (fine, length-encode_header)
        (Returns-bind (write_data m f.body p) _ _ _ (write_data-Returns m f.body p r v h) (
          send_body-Returns m p
            (written
              ∙ ap (λ z. ok (z, m, p))
                  (fine ∙ ap pos (length-encode_header f.id (8 + length f.body))))
            all))
  send_header-Returns (ret, m, p) h written (v, r, inr (failed, same, large)) = rw failed (
    v,
    refl,
    refl,
    inr (inl (refl, r, same, omega (arith, length-encode_header f.id (8 + length f.body)))),
  )

-- With an output buffer in order, a well-formed pool and a body of less than 2^31 bytes, sending
-- fails no assertion and leaves the connection in one of the three ways of `Sends`, unless the
-- pool ends the process for want of a block.
pub send-Returns :
    (ctl : Bool) (f : Message) (p : Pool) (c : Conn)
    → Ready c.obuf
    → Pool.IsValid p
    → length f.body < int_bound
    → Returns (send ctl f.id f.body p c) (Sends p c f)
unfolding send
send-Returns ctl f p c rc v h =
    Returns-bind_eq (write_data c.obuf (encode_header f.id (8 + length f.body)) p) _ _ _
      (write_data-Returns c.obuf (encode_header f.id (8 + length f.body)) p rc v
        (omega (arith, length-encode_header f.id (8 + length f.body))))
      λ w e written. send_header-Returns ctl p c f rc w h e written
