-- ===== src/Net/Link.antt =====
-- A server's connection (lars_reactor/src/tcp_conn.cc) and the client's end of it
-- (lars_reactor/src/tcp_client.cc), with TCP between them: the client reads what the server's socket
-- has taken, in its order, cut in any way.
pub mod Delivery
pub mod Sent
pub mod Flushing
mod Examples
use lars_study.Prelude.{
  ℕ, suc, ◌+◌, ◌*◌, ◌≤◌, ◌<◌, ◌≡◌, refl, ap, sym, subst, ◌∙◌, true, inl, List, [], ◌∷◌, ◌++◌, All,
  Option, some, append_assoc, append-nil, append-left_cancel, arith, ℤ, pos, length, length-append,
  ok, Yields-ok,
}
use native.Mathlib.Nat.{mul-le-mul_right}
use lars_study.Buffer.Pool
use lars_study.Buffer.Pool.{Pool}
use lars_study.Buffer.Pool.Stock.{IsStocked, IsStocked-le}
use lars_study.Buffer.ReactorBuf.{Ready, bytes_of, capacity_of}
use lars_study.Buffer.InputBuf.{ReadResult, answer}
use lars_study.Net.Message.{Message, encode, stream, IsSendable}
use lars_study.Net.Frames.{Inbound, Handlers}
use lars_study.Net.Frames.Handling.{Handling, Due}
use lars_study.Net.Frames.Delivery.{IsPartial}
use lars_study.Net.Frames.Cutting.{cut, partial_stream}
use lars_study.Net.TcpConn.{Conn}
use lars_study.Net.TcpConn.Trace
use lars_study.Net.TcpConn.Trace.{InOrder, Reach-InOrder}
use lars_study.Net.TcpClient.{Client, Env, handle_read}
use lars_study.Net.TcpClient.Receiving.{Handled, handle_read-delivers}

-- `sent` are the messages that the server's `send` accepted, and `taken` the bytes that the client has
-- read.
pub record Link : Type 0 where
  pub sent : List Message
  pub server : Inbound Conn
  pub taken : List ℕ
  pub client : Inbound Client

module _ (env : Env) (hs : Handlers Client) (h : ℕ) where
  -- The server accepts a message or empties its buffer; or the client reads some of the bytes that are
  -- on the way, with buffers enough for as many messages as there are bytes.
  pub data Step : Link → Link → Type 0 where
    serves :
        (k : Link) (ms : List Message) (i : Inbound Conn)
        → Trace.Step (k.sent, k.server) (ms, i)
        → All IsSendable ms
        → Step k (record k { sent = ms; server = i })
    reads :
        (k : Link) (first : ℤ) (bs later : List ℕ) (read : ReadResult) (j : Inbound Client)
        → k.server.rest.wire ≡ k.taken ++ (bs ++ later)
        → answer read ≡ some bs
        → 0 < length bs
        → capacity_of k.client.ibuf + length bs ≤ Pool.m8m
        → IsStocked (suc (suc (length k.sent * h))) k.client.pool
        → handle_read env (some first) (some (pos (length bs))) read hs k.client ≡ ok j
        → j.rest.is_connected ≡ true
        → Step k (record k { taken = k.taken ++ bs; client = j })

  pub data Reach (k : Link) : Link → Type 0 where
    here : Reach k k
    next : {l m : Link} → Reach k l → Step l m → Reach k m
