-- ===== src/Net/TcpConn/Trace.antt =====
-- The output of a connection over any sequence of sends and of writable events.
use lars_study.Prelude.{
  Yields-ok, ◌<◌, ◌≡◌, inl, inr, sym, ◌∙◌, Bool, List, [], ◌∷◌, ◌++◌, append_assoc, ok, pos, length,
  int_bound, Returns-ok,
}
use lars_study.Buffer.Pool
use lars_study.Buffer.Pool.{Pool}
use lars_study.Buffer.ReactorBuf.{Ready, Held, bytes_of}
use lars_study.Buffer.OutputBuf.{WriteResult, Offered}
use lars_study.Net.Message.{Message, encode, stream, stream-append}
use lars_study.Net.Frames.{Inbound}
use lars_study.Net.TcpConn.{Conn, connected, send, handle_write}
use lars_study.Net.TcpConn.Sending.{IsArmed, Sends, send-Returns}
use lars_study.Net.TcpConn.Writing.{Flushes, handle_write-Yields}

-- An accepted message (`send` returned 0), or a writable event, on an open connection. The list holds
-- the messages accepted so far.
pub data Step : List Message × Inbound Conn → List Message × Inbound Conn → Type 0 where
  sent :
      (ms : List Message) (i : Inbound Conn) (ctl : Bool) (f : Message) (p : Pool) (c : Conn)
      → length f.body < int_bound
      → send ctl f.id f.body i.pool i.rest ≡ ok (pos 0, p, c)
      → Step (ms, i) (ms ++ f ∷ [], record i { pool = p; rest = c })
  flushed :
      (ms : List Message) (i j : Inbound Conn) (rs : List WriteResult)
      → Offered rs (length (bytes_of i.rest.obuf))
      → handle_write rs i ≡ ok j
      → j.rest.state ≡ connected
      → Step (ms, i) (ms, j)

pub data Reach (s : List Message × Inbound Conn) : List Message × Inbound Conn → Type 0 where
  here : Reach s s
  next : {t u : List Message × Inbound Conn} → Reach s t → Step t u → Reach s u

-- The socket has taken a beginning of the accepted messages' bytes and the rest waits, with the loop
-- told of it.
pub record InOrder (s : List Message × Inbound Conn) : Type 0 where
  pub pool_valid : Pool.IsValid s.1.pool
  pub input : Held s.1.ibuf
  pub output : Ready s.1.rest.obuf
  pub is_open : s.1.rest.state ≡ connected
  pub bytes : s.1.rest.wire ++ bytes_of s.1.rest.obuf ≡ stream s.0
  pub armed : IsArmed s.1.rest

sent_lem :
    (ms : List Message) (i : Inbound Conn) (f : Message) (p : Pool) (c : Conn)
    → InOrder (ms, i)
    → Sends i.pool i.rest f (pos 0, p, c)
    → InOrder (ms ++ f ∷ [], record i { pool = p; rest = c })
sent_lem ms i f p c v (vp, wire, state, inl (_, r, bytes, armed)) = record {
  pool_valid = vp;
  input = v.input;
  output = r;
  is_open = state ∙ v.is_open;
  bytes =
      rw (wire, bytes, ← append_assoc i.rest.wire (bytes_of i.rest.obuf) (encode f), v.bytes)
        (sym (stream-append ms f));
  armed = armed v.armed;
}
sent_lem ms i f p c v (vp, wire, state, inr (inl (fails, _, _, _))) = absurd (cc)
sent_lem ms i f p c v (vp, wire, state, inr (inr (fails, _, _))) = absurd (cc)

flushed_lem :
    (ms : List Message) (i j : Inbound Conn)
    → InOrder (ms, i)
    → j.rest.state ≡ connected
    → Flushes i j
    → InOrder (ms, j)
flushed_lem ms i j v is_open (vp, hi, r, inl (state, bytes, armed)) = record {
  pool_valid = vp;
  input = hi;
  output = r;
  is_open = state;
  bytes = bytes ∙ v.bytes;
  armed = armed v.armed;
}
flushed_lem ms i j v is_open (vp, hi, r, inr (state, _)) = absurd (cc)

Step-InOrder : {s t : List Message × Inbound Conn} → Step s t → InOrder s → InOrder t
Step-InOrder (sent ms i ctl f p c l e) v = sent_lem ms i f p c v (
    Returns-ok _ (Sends i.pool i.rest f) _
      (send-Returns ctl f i.pool i.rest v.output v.pool_valid l) e)
Step-InOrder (flushed ms i j rs offered e is_open) v = flushed_lem ms i j v is_open (
    Yields-ok _ (Flushes i) _
      (handle_write-Yields rs i v.is_open v.input v.output v.pool_valid offered) e)

-- From a connection in order, after any sequence of accepted messages and of writable events that
-- leave it open: what the socket has taken followed by what waits is exactly the bytes of the
-- messages in the order in which they were accepted, and the loop waits for EPOLLOUT as long as
-- any wait.
pub Reach-InOrder : {s t : List Message × Inbound Conn} → InOrder s → Reach s t → InOrder t
Reach-InOrder v here = v
Reach-InOrder v (next r step) = Step-InOrder step (Reach-InOrder v r)
