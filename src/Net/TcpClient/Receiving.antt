-- ===== src/Net/TcpClient/Receiving.antt =====
-- tcp_client::handle_read: from the bytes of the socket to the handlers.
use lars_study.Prelude.{
  ℕ, ◌+◌, ◌≤◌, ◌<◌, ◌≡◌, inl, inr, refl, ap, sym, subst, ◌∙◌, true, List, ◌++◌, All, Option, none,
  some, arith, ℤ, pos, length, length-append, Yields, Yields-bind, suc, ◌*◌, le→ltb, ne→==,
}
use lars_study.Buffer.Memory.{length-slice}
use lars_study.Buffer.Pool
use lars_study.Buffer.Pool.{Pool}
use lars_study.Buffer.ReactorBuf.{ReactorBuf, Ready, Held, bytes_of, capacity_of}
use lars_study.Buffer.InputBuf.{ReadResult, answer, read_data}
use lars_study.Buffer.InputBuf.Reading.{Reads, Announced, adjust-Ready, Ready-Held}
use lars_study.Buffer.InputBuf.Stock.{read_data-Yields}
use lars_study.Buffer.Pool.Stock.{IsStocked}
use lars_study.Net.Frames.Handling.{Handling, Due}
use lars_study.Net.Message.{Message, stream, IsSendable, length-stream}
use lars_study.Net.Frames.{Inbound, Handlers, frame_loop}
use lars_study.Net.Frames.Delivery.{IsPartial, frame_loop-Delivered}
use lars_study.Net.TcpClient.{Client, Env, clean_conn, parse, handle_read_data, handle_read}

module _ (env : Env) (hs : Handlers Client) (h : ℕ) (I : List Message → Client → Type 0)
    (P : List Message → Message → Type 0) (handling : Handling hs h I P) where
  -- The messages `ds` were handled, in order, and the bytes `t` wait for the next call.
  abbrev pub Handled : ℕ → List Message → List ℕ → Inbound Client → Type 0
  Handled stock ds t j =
      I ds j.rest
      × Pool.IsValid j.pool
      × IsStocked stock j.pool
      × Ready j.ibuf
      × (bytes_of j.ibuf ≡ t)

  module _ (ds fs : List Message) (t : List ℕ) (stock : ℕ) (s : All IsSendable fs)
      (due : Due P ds fs) (partial : IsPartial t) where
    parse_lem :
        (m : ReactorBuf) (p : Pool) (c : Client)
        → bytes_of m ≡ stream fs ++ t
        → 0 < length (bytes_of m)
        → Held m
        → Pool.IsValid p
        → IsStocked (length fs * h + stock) p
        → I ds c
        → Yields
            (parse env hs (record { ibuf = m; pool = p; rest = c }))
            (Handled stock (ds ++ fs) t)
    unfolding parse
    parse_lem none p c e some_came held v st i = absurd (omega arith)
    parse_lem (some b) p c e some_came held v st i =
        let l = length-slice b.bytes b.head b.length in
        Yields-bind (frame_loop (b.length + 1) (λ x. x.head) (clean_conn env) hs _) _ _ _
          (frame_loop-Delivered hs h I P handling (clean_conn env) fs (b.length + 1) stock ds t
            (some b) p c
            (omega (arith, l, ap length e, length-append (stream fs) t, length-stream fs))
            (i, v, st, held, e) s due partial)
          λ j d. let (ready, same) = adjust-Ready j.ibuf d.3 in (d.0, d.1, d.2, ready, same ∙ d.4)

    read_lem :
        (n : ℕ) (bs : List ℕ) (a : Option (List ℕ)) (m : ReactorBuf) (c : Client)
        (w : ℤ × ReactorBuf × Pool)
        → a ≡ some bs
        → 0 < length bs
        → bytes_of m ++ bs ≡ stream fs ++ t
        → capacity_of m + n ≤ Pool.m8m
        → I ds c
        → Reads m n a w
        → IsStocked (length fs * h + stock) w.2
        → Yields (handle_read_data env hs c w) (Handled stock (ds ++ fs) t)
    unfolding handle_read_data
    read_lem n bs a m c (ret, m', p) e came all room i (v, ready, inl (bs', e', fine, got)) st =
        let same : bs' ≡ bs = cc in
        let l : length bs' ≡ length bs = ap length same in
        rw (fine, le→ltb (length bs') 0 (omega arith), ne→== (length bs') 0 (omega arith))
          (parse_lem m' p c (got ∙ ap (◌++◌ (bytes_of m)) same ∙ all)
            (omega (arith, l, ap length got, length-append (bytes_of m) bs')) (Ready-Held m' ready)
            v st i)
    read_lem n bs a m c (ret, m', p) e came all room i (v, ready, inr (_, _, inl none_came)) st =
        absurd (cc)
    read_lem n bs a m c (ret, m', p) e came all room i (v, ready, inr (_, _, inr large)) st =
        absurd (omega arith)

    -- However the stream is cut into reads: on an open connection, with a well-formed pool and
    -- input buffer, handlers that meet `Handling`, two free buffers of each class beside those
    -- that the handlers take, and a kernel that hands over as many bytes as it announced, which
    -- fit the largest block with the buffer's, if the bytes that wait and the bytes that come are
    -- the messages `fs`, all of which can be sent and meet what the handlers ask of them, and
    -- less than one more, a call returns, hands each of `fs` to its handler, once and in order,
    -- and keeps the bytes behind them for the next call.
    pub handle_read-delivers :
        (i : Inbound Client) (first : ℤ) (answers : ReadResult) (bs : List ℕ)
        → i.rest.is_connected ≡ true
        → Ready i.ibuf
        → Pool.IsValid i.pool
        → IsStocked (suc (suc (length fs * h + stock))) i.pool
        → I ds i.rest
        → answer answers ≡ some bs
        → 0 < length bs
        → bytes_of i.ibuf ++ bs ≡ stream fs ++ t
        → capacity_of i.ibuf + length bs ≤ Pool.m8m
        → Yields
            (handle_read env (some first) (some (pos (length bs))) answers hs i)
            (Handled stock (ds ++ fs) t)
    unfolding handle_read clean_conn
    handle_read-delivers i first answers bs is_open ready v st inv e came all room = rw is_open (
        Yields-bind (read_data i.ibuf (some (pos (length bs))) answers i.pool) _ _ _
          (read_data-Yields i.ibuf (length bs) answers i.pool (length fs * h + stock) (omega arith)
            (subst (Announced (length bs)) (sym e) (inr refl)) ready v st)
          λ w reads.
            read_lem (length bs) bs (answer answers) i.ibuf i.rest w e came all room inv reads.0
              reads.1)
