-- ===== src/Dns/Server/Serving.antt =====
-- A GetRouteRequest from the socket to the output buffer.
use lars_study.Prelude.{
  ℕ, suc, ◌+◌, ◌≤◌, ◌<◌, ◌≡◌, refl, sym, ◌∙◌, eqb_ℤ, ℤ, none, false, Bool, List, [], ◌∷◌, ◌++◌,
  some, arith, pos, length, Yields, Yields-mono, append_assoc,
}
use lars_study.Buffer.Pool
use lars_study.Buffer.Pool.{Pool}
use lars_study.Buffer.Pool.Stock.{IsStocked, IsStocked-le}
use lars_study.Buffer.ReactorBuf.{Ready, bytes_of, capacity_of}
use lars_study.Buffer.InputBuf.{ReadResult, answer}
use lars_study.Buffer.InputBuf.Reading.{Ready-Held}
use lars_study.Net.Handlers.{register_handler}
use lars_study.Net.Message.{Message, msg_len, encode, stream-append, IsSendable}
use lars_study.Net.Frames.{Inbound, call}
use lars_study.Net.Frames.Handling.{Handling}
use lars_study.Net.TcpConn.{Conn, handle_read}
use lars_study.Net.TcpConn.Receiving.{handle_read_one}
use lars_study.Net.TcpConn.Room.{Room, Accepts, send-Accepts}
use lars_study.Net.TcpConn.Trace.{InOrder}
use lars_study.Dns.Subscribe.{GetRouteResponse}
use lars_study.Dns.Route.{RouteMap}
use lars_study.Dns.Server.{
  GetRouteRequest, id_get_route_request, get_route, answer_route, dns_handlers,
}

module _ (parse : List ℕ → GetRouteRequest) (serialize : GetRouteResponse → List ℕ) (ctl : Bool)
    (m : RouteMap) where
  -- The message that answers a request with this body.
  abbrev pub reply : List ℕ → Message
  reply data_bytes =
      let (id, res_str) = get_route parse serialize m data_bytes in
      record { id = id; body = res_str }

  -- A request, and room for its reply.
  abbrev Asks : Conn → List Message → Message → Type 0
  Asks c ds f = (ds ≡ []) × (f.id ≡ id_get_route_request) × Room c.obuf (length (reply f.body).body)

  abbrev Replied : Conn → List Message → Conn → Type 0
  Replied c [] d = d ≡ c
  Replied c (f ∷ []) d = Accepts ctl (reply f.body) c d
  Replied c (f ∷ g ∷ fs) d = Unit

  answers :
      (c d : Conn) (ds : List Message) (f : Message) (p : Pool) (stock : ℕ)
      → Ready c.obuf
      → Pool.IsValid p
      → IsStocked (suc (suc (suc (suc stock)))) p
      → Replied c ds d
      → Asks c ds f
      → Yields
          (call (dns_handlers parse serialize ctl m f.id) f.id f.body p d)
          λ r. Pool.IsValid r.0 × IsStocked stock r.0 × Replied c (ds ++ f ∷ []) r.1
  unfolding dns_handlers answer_route register_handler call
  answers c d [] f p stock r v s e (none_before, asks, room) =
      let (q, c', sent, v', s', a) = send-Accepts ctl (reply f.body) c p stock r room v s in
      rw (asks, e, sent) (v', s', a)
  answers c d (g ∷ ds) f p stock r v s e (none_before, asks, room) = absurd (cc)

  serving :
      (c : Conn)
      → Ready c.obuf
      → Handling (dns_handlers parse serialize ctl m) 4 (Replied c) (Asks c)
  serving c r = record {
    handles = λ ds f p d stock v s e asks.
        answers c d ds f p stock r v
          (IsStocked-le (suc (suc (suc (suc stock)))) (4 + stock) p (omega arith) s) e asks;
  }

  accepted-InOrder :
      (ms : List Message) (i j : Inbound Conn) (f : Message)
      → InOrder (ms, i)
      → Accepts ctl f i.rest j.rest
      → Pool.IsValid j.pool
      → Ready j.ibuf
      → InOrder (ms ++ f ∷ [], j)
  accepted-InOrder ms i j f v (wire, state, r, bytes, armed) vp ready = record {
    pool_valid = vp;
    input = Ready-Held j.ibuf ready;
    output = r;
    is_open = state ∙ v.is_open;
    bytes =
        rw (wire, bytes, ← append_assoc i.rest.wire (bytes_of i.rest.obuf) (encode f), v.bytes)
          (sym (stream-append ms f));
    armed = armed v.armed;
  }

  -- On a connection whose output is that of the messages `ms` in their order, with a pool that has
  -- six free buffers in each class, and a kernel that hands over as many bytes as it announced,
  -- which fit the largest block with the buffer's: where the bytes that wait and come are one
  -- sendable GetRouteRequest `f` and fewer bytes than it has, and its reply has room in the output
  -- buffer, the read returns, the output is that of `ms` and the reply, and the bytes behind the
  -- request wait for the next read.
  pub handle_read-get_route :
      (ms : List Message) (f : Message) (t : List ℕ) (stock : ℕ) (i : Inbound Conn)
      (read : ReadResult) (bs : List ℕ)
      → InOrder (ms, i)
      → Ready i.ibuf
      → IsStocked (6 + stock) i.pool
      → IsSendable f
      → f.id ≡ id_get_route_request
      → Room i.rest.obuf (length (reply f.body).body)
      → length t < msg_len f
      → answer read ≡ some bs
      → 0 < length bs
      → bytes_of i.ibuf ++ bs ≡ encode f ++ t
      → capacity_of i.ibuf + length bs ≤ Pool.m8m
      → Yields
          (handle_read (some (pos (length bs))) read (dns_handlers parse serialize ctl m) i)
          λ j.
            InOrder (ms ++ reply f.body ∷ [], j)
            × Ready j.ibuf
            × IsStocked stock j.pool
            × (bytes_of j.ibuf ≡ t)
  handle_read-get_route ms f t stock i read bs v ready s sendable asks room short e came all fits =
      Yields-mono (handle_read (some (pos (length bs))) read (dns_handlers parse serialize ctl m) i)
        _ _
        (handle_read_one (dns_handlers parse serialize ctl m) 4 (Replied i.rest) (Asks i.rest)
          (serving i.rest v.output) [] f t stock i read bs sendable short (refl, asks, room) ready
          v.pool_valid (IsStocked-le (suc (suc (4 + stock))) (6 + stock) i.pool (omega arith) s)
          refl e came all fits)
        λ j (a, vp, left, ready', rest).
          (accepted-InOrder ms i j (reply f.body) v a vp ready', ready', left, rest)

  -- A message under another number has no handler.
  pub dns_handlers-none :
      (msgid : ℤ)
      → eqb_ℤ msgid id_get_route_request ≡ false
      → dns_handlers parse serialize ctl m msgid ≡ none
  unfolding dns_handlers register_handler
  dns_handlers-none msgid other = rw other
