-- ===== src/Net/TcpConn/Stocked.antt =====
-- Sending with a pool that has free buffers: the process does not exit.
use lars_study.Prelude.{
  ℕ, suc, ◌+◌, ◌<◌, Bool, List, ltb_ℤ, ℤ, pos, eqb_ℤ, length, arith, Bool-cases, inl, inr, Spares,
  Spares-bind, Returns-Spares, Yields, int_bound,
}
use lars_study.Buffer.Pool
use lars_study.Buffer.Pool.{Pool}
use lars_study.Buffer.Pool.Stock.{IsStocked, IsStocked-le}
use lars_study.Buffer.ReactorBuf
use lars_study.Buffer.ReactorBuf.{ReactorBuf, Ready, buf_length, write_data}
use lars_study.Buffer.ReactorBuf.Stock.{write_data-Spares, pop-Spares}
use lars_study.Net.Message.{Message, encode_header}
use lars_study.Net.TcpConn.{Conn, send, send_header, send_body}
use lars_study.Net.TcpConn.Sending.{Sends, send-Returns}

send_body-Spares :
    (n : ℕ) (ctl activate : Bool) (bs : List ℕ) (c : Conn) (w : ℤ × ReactorBuf × Pool)
    → IsStocked n w.2
    → Spares (send_body ctl activate bs c w) (λ r. IsStocked n r.1)
unfolding send_body
send_body-Spares n ctl activate bs c (ret, m, p) s = elim (Bool-cases (ltb_ℤ ret (pos 0))) [
  | inl failed ↦
      rw failed
        (Spares-bind (ReactorBuf.pop m (pos 8) p) _ _ _ (pop-Spares n m (pos 8) p s) λ q s'. s')
  | inr fine ↦ elim (Bool-cases activate) [
    | inl now ↦ rw (fine, now) s
    | inr later ↦ rw (fine, later) s
  ]
]

send_header-Spares :
    (n : ℕ) (ctl activate : Bool) (bs : List ℕ) (c : Conn) (w : ℤ × ReactorBuf × Pool)
    → IsStocked (suc (suc n)) w.2
    → Spares (send_header ctl activate bs c w) (λ r. IsStocked n r.1)
unfolding send_header
send_header-Spares n ctl activate bs c (ret, m, p) s = elim (Bool-cases (ltb_ℤ ret (pos 0))) [
  | inl failed ↦ rw failed (IsStocked-le n (suc (suc n)) p (omega arith) s)
  | inr fine ↦ rw fine (
      Spares-bind (write_data m bs p) _ _ _ (write_data-Spares n m bs p s)
        (send_body-Spares n ctl activate bs c))
]

send-Spares :
    (n : ℕ) (ctl : Bool) (id : ℤ) (bs : List ℕ) (p : Pool) (c : Conn)
    → IsStocked (suc (suc (suc (suc n)))) p
    → Spares (send ctl id bs p c) (λ r. IsStocked n r.1)
unfolding send
send-Spares n ctl id bs p c s =
    Spares-bind (write_data c.obuf (encode_header id (8 + length bs)) p) _ _ _
      (write_data-Spares (suc (suc n)) c.obuf (encode_header id (8 + length bs)) p s)
      (send_header-Spares n ctl (eqb_ℤ (buf_length c.obuf) (pos 0)) bs c)

-- With an output buffer in order, a well-formed pool that has four free buffers in each class, and a body of
-- less than 2^31 bytes, sending returns. It returns 0 with the whole message behind what waited, and
-- EPOLLOUT is then awaited if it was whenever output waited; or -1 with what waited unchanged, where
-- there is no room for the header; or -1 where the header goes in and the body is past the largest class beside
-- the block that is then held: the first eight bytes that waited are then gone, and the header stays.
pub send-Yields :
    (ctl : Bool) (f : Message) (p : Pool) (c : Conn) (stock : ℕ)
    → Ready c.obuf
    → Pool.IsValid p
    → IsStocked (suc (suc (suc (suc stock)))) p
    → length f.body < int_bound
    → Yields (send ctl f.id f.body p c) (λ r. Sends p c f r × IsStocked stock r.1)
send-Yields ctl f p c stock rc v s h =
    Returns-Spares (send ctl f.id f.body p c) (Sends p c f) _ (send-Returns ctl f p c rc v h)
      (send-Spares stock ctl f.id f.body p c s)
