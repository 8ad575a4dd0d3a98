-- ===== src/Net/TcpConn/Room.antt =====
-- tcp_conn::send, where the output buffer has room for the message.
use lars_study.Prelude.{
  ℕ, suc, ◌+◌, ◌≤◌, ◌<◌, ◌≡◌, ◌∙◌, refl, ap, Bool, List, ◌++◌, none, some, arith, ℤ, pos, eqb_ℤ,
  length, int_bound, le→ltb, Bool-cases, inl, inr, ◌⊎◌, ok, stop, Outcome, Yields, Yields-ok,
}
use lars_study.Buffer.Memory.{store}
use lars_study.Buffer.IoBuf.{IoBuf}
use lars_study.Buffer.Pool
use lars_study.Buffer.Pool.{Pool, alloc_buf}
use lars_study.Buffer.Pool.Stock.{IsStocked, IsStocked-le, alloc_buf-Yields}
use lars_study.Buffer.Pool.Alloc.{first_block}
use lars_study.Net.EventLoop.{add_io_event, epollout_only}
use lars_study.Buffer.ReactorBuf.{ReactorBuf, Ready, IsReady, bytes_of, buf_length, write_data}
use lars_study.Buffer.ReactorBuf.Write.{Writes, write_fits, write_first}
use lars_study.Buffer.ReactorBuf.Stock.{write_data-Yields}
use lars_study.Net.Message.{Message, encode, encode_header, length-encode_header}
use lars_study.Net.TcpConn.{Conn, on_write, send, send_header, send_body}
use lars_study.Net.TcpConn.Sending.{Sends, IsArmed}
use lars_study.Net.TcpConn.Stocked.{send-Yields}

-- Room for a header and a body of `n` bytes: the header in the block that is held, if any, and the
-- body behind it, or in the largest class beside that block.
abbrev pub Room : ReactorBuf → ℕ → Type 0
Room none n = Pool.m4k + n ≤ Pool.m8m
Room (some b) n =
    (b.length + 8 ≤ b.capacity) × ((b.length + 8 + n ≤ b.capacity) ⊎ (b.capacity + n ≤ Pool.m8m))

module _ (ctl : Bool) (f : Message) (c : Conn) where
  abbrev header : List ℕ
  header = encode_header f.id (8 + length f.body)

  abbrev headed : IoBuf → IoBuf
  headed b = record b { bytes = store b.bytes b.length header; length = b.length + 8 }

  headed-IsReady : (b : IoBuf) → IsReady b → b.length + 8 ≤ b.capacity → IsReady (headed b)
  headed-IsReady b r h = record { valid = omega arith; class = r.class; at_start = r.at_start }

  -- The body goes in.
  send_body_fits :
      (b : IoBuf) (q : Pool)
      → IsReady b
      → Room (some b) (length f.body)
      → Pool.IsValid q
      → IsStocked 2 q
      → (m : ReactorBuf) × (q' : Pool) × (write_data (some (headed b)) f.body q
          ≡ ok (pos (length f.body), m, q'))
  send_body_fits b q r (h, inl fits) v s =
      (_, q, write_fits (headed b) f.body q (headed-IsReady b r h) fits)
  send_body_fits b q r (h, inr grows) v s =
      went (write_data (some (headed b)) f.body q) refl
        (write_data-Yields (some (headed b)) f.body q 0 (headed-IsReady b r h) v s (omega arith))
    where
      went :
          (o : Outcome (ℤ × ReactorBuf × Pool))
          → write_data (some (headed b)) f.body q ≡ o
          → Yields o (λ w. Writes (some (headed b)) f.body w × IsStocked 0 w.2)
          → (m : ReactorBuf) × (q' : Pool) × (write_data (some (headed b)) f.body q
              ≡ ok (pos (length f.body), m, q'))
      went (ok (ret, m, q')) e ((_, _, inl (fine, _)), _) = (m, q', e ∙ rw fine)
      went (ok (ret, m, q')) e ((_, _, inr (_, _, large)), _) = absurd (omega arith)
      went (stop x) e y = elim y [ ]

  send_block :
      (b : IoBuf) (p q : Pool)
      → write_data c.obuf header p ≡ write_data (some b) header q
      → IsReady b
      → Room (some b) (length f.body)
      → Pool.IsValid q
      → IsStocked 2 q
      → (q' : Pool) × (d : Conn) × (send ctl f.id f.body p c ≡ ok (pos 0, q', d))
  unfolding send send_header send_body
  send_block b p q e r room v s =
      let n : length header ≡ 8 = length-encode_header f.id (8 + length f.body) in
      let (m, q', body) = send_body_fits b q r room v s in
      elim (Bool-cases (eqb_ℤ (buf_length c.obuf) (pos 0))) [
        | inl now ↦ (
          q',
          record c { obuf = m; loop = add_io_event c.loop c.fd epollout_only on_write ctl },
          rw (
            e,
            write_fits b header q r (omega (arith, room.0)),
            n,
            body,
            le→ltb (length f.body) 0 (omega arith),
            now,
          ),
        )
        | inr later ↦ (
          q',
          record c { obuf = m },
          rw (
            e,
            write_fits b header q r (omega (arith, room.0)),
            n,
            body,
            le→ltb (length f.body) 0 (omega arith),
            later,
          ),
        )
      ]

  send_fits :
      (m : ReactorBuf) (p : Pool)
      → c.obuf ≡ m
      → Ready m
      → Room m (length f.body)
      → Pool.IsValid p
      → IsStocked 3 p
      → (q : Pool) × (d : Conn) × (send ctl f.id f.body p c ≡ ok (pos 0, q, d))
  send_fits (some b) p e r room v s =
      send_block b p p (ap (λ m. write_data m header p) e) r room v
        (IsStocked-le 2 3 p (omega arith) s)
  send_fits none p e r room v s =
      let (l, found, size) = s Pool.m4k refl in
      let (b, q, taken, class, empty, start) = first_block p l found (omega arith) v in
      let rb : IsReady b = record {
        valid = record { within = omega arith; small = omega arith };
        class = rw class refl;
        at_start = start;
      } in
      let allocated = Yields-ok (alloc_buf p (pos 8)) _ _ (alloc_buf-Yields p 8 2 v s) taken in
      send_block b p q (rw e (write_first b header p q (rw length-encode_header taken))) rb
        (omega arith, inr (omega arith)) allocated.0.4 allocated.1

  small_body : (m : ReactorBuf) → Ready m → Room m (length f.body) → length f.body < int_bound
  small_body none r room = omega arith
  small_body (some b) r (h, inl fits) = omega arith
  small_body (some b) r (h, inr grows) = omega arith

  -- What an accepted message leaves of the connection.
  abbrev pub Accepts : Conn → Type 0
  Accepts d =
      (d.wire ≡ c.wire)
      × (d.state ≡ c.state)
      × Ready d.obuf
      × (bytes_of d.obuf ≡ bytes_of c.obuf ++ encode f)
      × (IsArmed c → IsArmed d)

  accepted_lem :
      (before q : Pool) (d : Conn) → Sends before c f (pos 0, q, d) → Pool.IsValid q × Accepts d
  accepted_lem before q d (v, wire, state, inl (_, r, bytes, armed)) =
      (v, (wire, state, r, bytes, armed))
  accepted_lem before q d (v, wire, state, inr (inl (fails, _, _, _))) = absurd (cc)
  accepted_lem before q d (v, wire, state, inr (inr (fails, _, _))) = absurd (cc)

  -- With an output buffer in order that has room for the message, and a well-formed pool that has
  -- four free buffers in each class, sending accepts the message.
  pub send-Accepts :
      (p : Pool) (stock : ℕ)
      → Ready c.obuf
      → Room c.obuf (length f.body)
      → Pool.IsValid p
      → IsStocked (suc (suc (suc (suc stock)))) p
      → (q : Pool) × (d : Conn) × (send ctl f.id f.body p c ≡ ok (pos 0, q, d))
        × Pool.IsValid q
        × IsStocked stock q
        × Accepts d
  send-Accepts p stock r room v s =
      let (q, d, sent) =
        send_fits c.obuf p refl r room v
          (IsStocked-le 3 (suc (suc (suc (suc stock)))) p (omega arith) s) in
      let (done, left) =
        Yields-ok (send ctl f.id f.body p c) (λ w. Sends p c f w × IsStocked stock w.1) _
          (send-Yields ctl f p c stock r v s (small_body c.obuf r room)) sent in
      let (v', a) = accepted_lem p q d done in (q, d, sent, v', left, a)
