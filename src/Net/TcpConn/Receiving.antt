-- ===== src/Net/TcpConn/Receiving.antt =====
-- tcp_conn::handle_read: from the bytes of the socket to the handlers.
use lars_study.Prelude.{
  ℕ, suc, ◌+◌, ◌*◌, ◌≤◌, ◌<◌, ◌≡◌, inl, inr, refl, ap, sym, subst, append-same_tail, ◌∙◌, List, [],
  ◌∷◌, ◌++◌, Option, none, some, arith, ℤ, pos, length, length-append, replicate, Yields,
  Yields-mono, Yields-bind, le→ltb, ne→==,
}
use lars_study.Buffer.Memory.{slice, length-slice, slice-prefix}
use lars_study.Buffer.Pool
use lars_study.Buffer.Pool.{Pool}
use lars_study.Buffer.ReactorBuf.{ReactorBuf, Ready, Held, bytes_of, capacity_of}
use lars_study.Buffer.InputBuf.{ReadResult, answer, read_data}
use lars_study.Buffer.InputBuf.Reading.{Reads, Announced, adjust-Ready, Ready-Held}
use lars_study.Buffer.InputBuf.Stock.{read_data-Yields}
use lars_study.Buffer.Pool.Stock.{IsStocked, IsStocked-le}
use lars_study.Net.Frames.Handling.{Handling, Due}
use lars_study.Net.Message.{Message, msg_len, encode, IsSendable, length-encode}
use lars_study.Net.Frames.{Inbound, Handlers, frame_loop}
use lars_study.Net.Frames.Stale.{repeat_loop}
use lars_study.Net.TcpConn.{Conn, close, parse, handle_read_data, handle_read}

module _ (hs : Handlers Conn) (h : ℕ) (I : List Message → Conn → Type 0)
    (P : List Message → Message → Type 0) (handling : Handling hs h I P) where
  -- `f` was handled `k` times; the last `r` of the bytes `bs` wait for the next call.
  abbrev pub Leaves : ℕ → List Message → Message → ℕ → ℕ → List ℕ → Inbound Conn → Type 0
  Leaves stock ds f k r bs j =
      I (ds ++ replicate k f) j.rest
      × Pool.IsValid j.pool
      × IsStocked stock j.pool
      × Ready j.ibuf
      × (length (bytes_of j.ibuf) ≡ r)
      × ((past : List ℕ) × (bs ≡ past ++ bytes_of j.ibuf))

  module _ (ds : List Message) (f : Message) (t : List ℕ) (k r stock : ℕ) (s : IsSendable f)
      (size : length t ≡ k * msg_len f + r) (r_fits : r < msg_len f)
      (due : Due P ds (replicate (suc k) f)) where
    parse_lem :
        (m : ReactorBuf) (p : Pool) (c : Conn)
        → bytes_of m ≡ encode f ++ t
        → Held m
        → Pool.IsValid p
        → IsStocked (suc k * h + stock) p
        → I ds c
        → Yields
            (parse hs (record { ibuf = m; pool = p; rest = c }))
            (Leaves stock ds f (suc k) r (encode f ++ t))
    unfolding parse
    parse_lem none p c e held v st i =
        absurd (omega (arith, ap length e, length-append (encode f) t, length-encode f))
    parse_lem (some b) p c e held v st i =
        let (whole, _, n) = slice-prefix b.bytes b.head b.length (encode f) t e in
        let at_head = ap (slice b.bytes b.head) (sym (length-encode f)) ∙ whole in
        let l = length-slice b.bytes b.head b.length in
        Yields-bind (frame_loop (b.length + 1) (λ _. b.head) close hs _) _ _ _
          (repeat_loop hs h I P handling close b.bytes b.head f r s at_head r_fits (suc k)
            (b.length + 1) stock ds (some b) p c (omega (arith, n, length-encode f)) i due v st held
            refl (omega (arith, n, l, length-encode f)))
          λ j d.
            let (ready, same) = adjust-Ready j.ibuf d.3 in
            (
              d.0,
              d.1,
              d.2,
              ready,
              ap length same ∙ d.4,
              (d.5.0, sym e ∙ d.5.1 ∙ ap (◌++◌ d.5.0) (sym same)),
            )

    read_lem :
        (n : ℕ) (bs : List ℕ) (a : Option (List ℕ)) (m : ReactorBuf) (c : Conn)
        (w : ℤ × ReactorBuf × Pool)
        → a ≡ some bs
        → 0 < length bs
        → bytes_of m ++ bs ≡ encode f ++ t
        → capacity_of m + n ≤ Pool.m8m
        → I ds c
        → Reads m n a w
        → IsStocked (suc k * h + stock) w.2
        → Yields (handle_read_data hs c w) (Leaves stock ds f (suc k) r (encode f ++ t))
    unfolding handle_read_data
    read_lem n bs a m c (ret, m', p) e came all room i (v, ready, inl (bs', e', fine, got)) st =
        let same : bs' ≡ bs = cc in
        let l : length bs' ≡ length bs = ap length same in
        rw (fine, le→ltb (length bs') 0 (omega arith), ne→== (length bs') 0 (omega arith))
          (parse_lem m' p c (got ∙ ap (◌++◌ (bytes_of m)) same ∙ all) (Ready-Held m' ready) v st i)
    read_lem n bs a m c (ret, m', p) e came all room i (v, ready, inr (_, _, inl none_came)) st =
        absurd (cc)
    read_lem n bs a m c (ret, m', p) e came all room i (v, ready, inr (_, _, inr large)) st =
        absurd (omega arith)

    -- With a well-formed pool and input buffer, handlers that meet `Handling`, two free buffers of
    -- each class beside those that the handlers take, and a kernel that hands over as many bytes
    -- as it announced, which fit the largest block with the buffer's: where `f` can be sent and
    -- is the first message among the bytes that wait and come, `t` the bytes behind it, and what
    -- the handlers ask of a message is met by each repeat of `f`, one call returns and hands `f`
    -- to its handler once for itself and once more for each `msg_len f` bytes of `t`, whatever
    -- these are; the last bytes of `t`, fewer than `msg_len f`, wait for the next call.
    pub handle_read-repeats :
        (i : Inbound Conn) (answers : ReadResult) (bs : List ℕ)
        → Ready i.ibuf
        → Pool.IsValid i.pool
        → IsStocked (suc (suc (suc k * h + stock))) i.pool
        → I ds i.rest
        → answer answers ≡ some bs
        → 0 < length bs
        → bytes_of i.ibuf ++ bs ≡ encode f ++ t
        → capacity_of i.ibuf + length bs ≤ Pool.m8m
        → Yields
            (handle_read (some (pos (length bs))) answers hs i)
            (Leaves stock ds f (suc k) r (encode f ++ t))
    unfolding handle_read
    handle_read-repeats i answers bs ready v st inv e came all room =
        Yields-bind (read_data i.ibuf (some (pos (length bs))) answers i.pool) _ _ _
          (read_data-Yields i.ibuf (length bs) answers i.pool (suc k * h + stock) (omega arith)
            (subst (Announced (length bs)) (sym e) (inr refl)) ready v st)
          λ w reads.
            read_lem (length bs) bs (answer answers) i.ibuf i.rest w e came all room inv reads.0
              reads.1

  one_share :
      (stock : ℕ) (p : Pool)
      → IsStocked (suc (suc (h + stock))) p
      → IsStocked (suc (suc (1 * h + stock))) p
  one_share stock p s =
      IsStocked-le (suc (suc (1 * h + stock))) (suc (suc (h + stock))) p (omega arith) s

  -- Under the same conditions, one whole message and fewer bytes behind it than it has are read so
  -- that the message is handled once and the bytes behind it are kept for the next call.
  pub handle_read_one :
      (ds : List Message) (f : Message) (t : List ℕ) (stock : ℕ) (i : Inbound Conn)
      (answers : ReadResult) (bs : List ℕ)
      → IsSendable f
      → length t < msg_len f
      → P ds f
      → Ready i.ibuf
      → Pool.IsValid i.pool
      → IsStocked (suc (suc (h + stock))) i.pool
      → I ds i.rest
      → answer answers ≡ some bs
      → 0 < length bs
      → bytes_of i.ibuf ++ bs ≡ encode f ++ t
      → capacity_of i.ibuf + length bs ≤ Pool.m8m
      → Yields (handle_read (some (pos (length bs))) answers hs i) λ j.
        I (ds ++ f ∷ []) j.rest
        × Pool.IsValid j.pool
        × IsStocked stock j.pool
        × Ready j.ibuf
        × (bytes_of j.ibuf ≡ t)
  handle_read_one ds f t stock i answers bs s short due ready v st inv e came all room =
      Yields-mono (handle_read (some (pos (length bs))) answers hs i) _ _
        (handle_read-repeats ds f t 0 (length t) stock s (omega arith) short (due, tt) i answers bs
          ready v (one_share stock i.pool st) inv e came all room)
        λ j d. (
          d.0,
          d.1,
          d.2,
          d.3,
          append-same_tail (encode f) d.5.0 t (bytes_of j.ibuf) d.5.1 (sym d.4),
        )
