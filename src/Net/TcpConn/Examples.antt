-- ===== src/Net/TcpConn/Examples.antt =====
-- Runs of the server's end of a connection.
use lars_study.Prelude.{
  Yields, to_int, ℕ, ◌+◌, ◌≡◌, refl, ap, sym, ◌∙◌, true, false, List, [], ◌∷◌, ◌++◌, append_assoc,
  append-nil, none, some, pos, negsuc, ok, stop, assert_failed, arith, length, length-append,
}
use lars_study.Buffer.Memory.{slice, store}
use lars_study.Buffer.IoBuf.{IoBuf, io_buf}
use lars_study.Buffer.Pool.{buf_pool}
use lars_study.Buffer.Pool.Init.{buf_pool-IsValid}
use lars_study.Buffer.ReactorBuf.{IsReady, buf_length, bytes_of}
use lars_study.Buffer.InputBuf.{got}
use lars_study.Buffer.OutputBuf.{
  WriteResult, wrote, would_block, drain, write2fd, write_out, after_write,
}
use lars_study.Net.Message.{
  stream, Message, encode, IsSendable, length-encode, encode_header, length-encode_header,
}
use lars_study.Net.Frames.{Inbound, Handler, Handlers, call}
use lars_study.Net.EventLoop.{event_loop, add_io_event, epollout_only, interest}
use lars_study.Net.TcpConn.{
  Conn, connected, on_write, send, send_header, send_body, written, unlisten, handle_read,
  handle_write,
}
use lars_study.Net.TcpConn.Sending.{Sends}
use lars_study.Net.TcpConn.Stocked.{send-Yields}
use lars_study.Net.Frames.Handling.{Handling}
use lars_study.Buffer.Pool.Stock.{IsStocked, IsStocked-le, buf_pool-IsStocked}
use lars_study.Net.TcpConn.Receiving.{Leaves, handle_read-repeats}
use lars_study.Net.TcpConn.Emptying.{handle_write-stream}
use lars_study.Buffer.ReactorBuf.Write.{write_fits}
use lars_study.Net.TcpConn.Trace.{sent, flushed, here, next, InOrder, Reach-InOrder}
use lars_study.Net.TcpConn.Desync.{send_desync}

-- An open connection with nothing waiting, and one with three bytes of output in a block of 4K.
abbrev fresh_conn : Conn
fresh_conn = record {
  fd = 5;
  state = connected;
  obuf = none;
  loop = event_loop;
  conns = λ i. false;
  closed = [];
  wire = [];
}

abbrev three_bytes : IoBuf
three_bytes = record {
  bytes = store (λ i. 0) 0 (7 ∷ 8 ∷ 9 ∷ []);
  capacity = 4096;
  length = 3;
  head = 0;
}

three_bytes-IsReady : IsReady three_bytes
three_bytes-IsReady = record {
  valid = record { within = omega arith; small = omega arith };
  class = refl;
  at_start = refl;
}

abbrev busy_conn : Conn
busy_conn = record fresh_conn { obuf = some three_bytes }

abbrev inbound : Conn → Inbound Conn
inbound c = record { ibuf = none; pool = buf_pool; rest = c }

-- Two messages of ten bytes.
abbrev ask : Message
ask = record { id = pos 1; body = 10 ∷ 11 ∷ [] }

abbrev tell : Message
tell = record { id = pos 2; body = 20 ∷ 21 ∷ [] }

ask-IsSendable : IsSendable ask
ask-IsSendable = record { id_fits = omega arith; size_fits = omega arith }

-- Handlers that note the bodies they are given, in the field `closed`.
abbrev note : Handler Conn
note id body p c = ok (p, record c { closed = c.closed ++ body })

abbrev notes : Handlers Conn
notes id = some note

abbrev bodies : List Message → List ℕ
bodies [] = []
bodies (f ∷ fs) = f.body ++ bodies fs

bodies-append : (fs : List Message) (f : Message) → bodies (fs ++ f ∷ []) ≡ bodies fs ++ f.body
bodies-append [] f = append-nil f.body
bodies-append (g ∷ fs) f =
    ap (◌++◌ g.body) (bodies-append fs f) ∙ sym (append_assoc g.body (bodies fs) f.body)

abbrev Noted : List Message → Conn → Type 0
Noted fs c = c.closed ≡ bodies fs

abbrev Asked : List Message → Message → Type 0
Asked ds f = Unit

notes_handling : Handling notes 0 Noted Asked
unfolding call
notes_handling = record {
  handles = λ ds f p s stock v st e due. (
    v,
    IsStocked-le stock (0 + stock) p (omega arith) st,
    ap (λ l. l ++ f.body) e ∙ sym (bodies-append ds f),
  );
}

-- Two messages come at once: the first is handled twice, the second never.
handle_read-repeats_example :
    Yields
      (handle_read
        (some (pos (length (encode ask ++ encode tell))))
        (got (encode ask ++ encode tell))
        notes
        (inbound fresh_conn))
      (Leaves notes 0 Noted Asked notes_handling 18 [] ask 2 0 (encode ask ++ encode tell))
handle_read-repeats_example =
    handle_read-repeats notes 0 Noted Asked notes_handling [] ask (encode tell) 1 0 18
      ask-IsSendable (length-encode tell) (omega arith) (tt, (tt, tt)) (inbound fresh_conn)
      (got (encode ask ++ encode tell)) (encode ask ++ encode tell) tt buf_pool-IsValid
      buf_pool-IsStocked refl refl
      (omega
        (arith, length-append (encode ask) (encode tell), length-encode ask, length-encode tell))
      refl
      (omega
        (arith, length-append (encode ask) (encode tell), length-encode ask, length-encode tell))

send-Yields_example :
    Yields
      (send true (pos 1) (10 ∷ 11 ∷ []) buf_pool busy_conn)
      λ r. Sends buf_pool busy_conn ask r × IsStocked 16 r.1
send-Yields_example =
    send-Yields true ask buf_pool busy_conn 16 three_bytes-IsReady buf_pool-IsValid
      buf_pool-IsStocked (omega arith)

-- Eight bytes are left in a block of the largest class.
abbrev full_block : IoBuf
full_block = record { bytes = λ i. 0; capacity = 8388608; length = 8388600; head = 0 }

abbrev full_conn : Conn
full_conn = record fresh_conn { obuf = some full_block }

send_desync_example :
    (d : Conn) × (send true (pos 1) (10 ∷ 11 ∷ []) buf_pool full_conn ≡ ok (negsuc 0, buf_pool, d))
    × ((r : WriteResult) (rs : List WriteResult) (i : Inbound Conn)
        → i.rest ≡ d
        → handle_write (r ∷ rs) i ≡ stop assert_failed)
send_desync_example =
    send_desync true ask buf_pool full_conn full_block refl
      (record {
        valid = record { within = omega arith; small = omega arith };
        class = refl;
        at_start = refl;
      })
      (omega arith) (omega arith) (omega arith) (omega arith) (omega arith)

-- An empty block, the block with `ask` in it, and the socket then taking four bytes of it.
abbrev idle_conn : Conn
idle_conn = record fresh_conn { obuf = some (io_buf 4096) }

abbrev asked_block : IoBuf
asked_block = record (io_buf 4096) {
  bytes = store (store (λ i. 0) 0 (encode_header (pos 1) 10)) 8 (10 ∷ 11 ∷ []);
  length = 10;
}

abbrev asking_conn : Conn
asking_conn = record idle_conn {
  obuf = some asked_block;
  loop = add_io_event event_loop 5 epollout_only on_write true;
}

abbrev header_block : IoBuf
header_block = record (io_buf 4096) {
  bytes = store (λ i. 0) 0 (encode_header (pos 1) 10);
  length = 8;
}

header_block-IsReady : IsReady header_block
header_block-IsReady = record {
  valid = record { within = omega arith; small = omega arith };
  class = refl;
  at_start = refl;
}

idle-IsReady : IsReady (io_buf 4096)
idle-IsReady = record {
  valid = record { within = omega arith; small = omega arith };
  class = refl;
  at_start = refl;
}

send_ask : send true (pos 1) (10 ∷ 11 ∷ []) buf_pool idle_conn ≡ ok (pos 0, buf_pool, asking_conn)
unfolding send send_header send_body buf_length to_int
send_ask = rw (
  write_fits (io_buf 4096) (encode_header (pos 1) 10) buf_pool idle-IsReady
      (omega (arith, length-encode_header (pos 1) 10)),
  length-encode_header,
  write_fits header_block (10 ∷ 11 ∷ []) buf_pool header_block-IsReady (omega arith),
)

blocked : handle_write (would_block ∷ []) (inbound asking_conn) ≡ ok (inbound asking_conn)
unfolding handle_write drain write2fd write_out after_write written unlisten buf_length to_int
blocked = refl

idle-InOrder : InOrder ([], inbound idle_conn)
unfolding slice
idle-InOrder = record {
  pool_valid = buf_pool-IsValid;
  input = tt;
  output = idle-IsReady;
  is_open = refl;
  bytes = refl;
  armed = λ l. absurd (omega arith);
}

-- `ask` waits in the block.
asking-InOrder : InOrder (ask ∷ [], inbound asking_conn)
asking-InOrder =
    Reach-InOrder idle-InOrder
      (next here (sent [] (inbound idle_conn) true ask buf_pool asking_conn (omega arith) send_ask))

Reach-InOrder_example : InOrder (ask ∷ [], inbound asking_conn)
Reach-InOrder_example = Reach-InOrder idle-InOrder (
    next
      (next here (sent [] (inbound idle_conn) true ask buf_pool asking_conn (omega arith) send_ask))
      (flushed (ask ∷ []) (inbound asking_conn) (inbound asking_conn) (would_block ∷ [])
        (omega arith, tt) blocked refl))

handle_write-stream_example :
    (j : Inbound Conn) × (handle_write (wrote 10 ∷ []) (inbound asking_conn) ≡ ok j)
    × (j.rest.wire ≡ stream (ask ∷ []))
    × (bytes_of j.rest.obuf ≡ [])
    × ((interest j.rest.loop j.rest.fd).epollout ≡ false)
    × InOrder (ask ∷ [], j)
handle_write-stream_example =
    handle_write-stream (ask ∷ []) (inbound asking_conn) asked_block asking-InOrder refl
      (omega arith)
