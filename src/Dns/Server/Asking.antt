-- ===== src/Dns/Server/Asking.antt =====
-- A dns client that asks over TCP, from the request's arrival at the dns service to the client's handler.
mod Examples
use lars_study.Prelude.{
  ℕ, ◌+◌, ◌≤◌, ◌<◌, ◌≡◌, ap, sym, refl, ◌∙◌, Bool, List, [], ◌∷◌, ◌++◌, All, append_assoc, some,
  pos, length, ok, Yields, Yields-mono, Yields-ok,
}
use lars_study.Buffer.Pool
use lars_study.Buffer.Pool.Stock.{IsStocked}
use lars_study.Buffer.ReactorBuf.{Ready, bytes_of, capacity_of}
use lars_study.Buffer.InputBuf.{ReadResult, answer}
use lars_study.Net.Message.{Message, msg_len, encode, stream, IsSendable}
use lars_study.Net.Frames.{Inbound, Handlers}
use lars_study.Net.Frames.Handling.{Handling}
use lars_study.Net.Frames.Delivery.{IsPartial}
use lars_study.Net.TcpConn.{Conn, handle_read}
use lars_study.Net.TcpClient.{Client, Env}
use lars_study.Net.Link.{Link, Reach}
use lars_study.Net.Link.Sent.{Asked, sent_grows}
use lars_study.Net.Link.Delivery.{IsLinked, serves_lem, Reach-IsLinked}
use lars_study.Dns.Subscribe.{GetRouteResponse}
use lars_study.Dns.Route.{RouteMap}
use lars_study.Dns.Server.{GetRouteRequest, id_get_route_request, dns_handlers}
use lars_study.Dns.Server.Serving.{reply, handle_read-get_route}
use lars_study.Net.TcpConn.Room.{Room}

All-snoc :
    (fs : List Message) (f : Message)
    → All IsSendable fs
    → IsSendable f
    → All IsSendable (fs ++ f ∷ [])
All-snoc [] f a s = (s, tt)
All-snoc (g ∷ fs) f a s = (a.0, All-snoc fs f a.1 s)

module _ (parse : List ℕ → GetRouteRequest) (serialize : GetRouteResponse → List ℕ) (ctl : Bool)
    (m : RouteMap) (env : Env) (hs : Handlers Client) (h : ℕ) (I : List Message → Client → Type 0)
    (handling : Handling hs h I Asked) where
  -- The link after the service has read a request with this body.
  abbrev pub replied : Link → List ℕ → Inbound Conn → Link
  replied k body j = record k { sent = k.sent ++ reply parse serialize ctl m body ∷ []; server = j }

  -- The reply counts as sent, and the link stays in order.
  pub request-IsLinked :
      (k : Link) (f : Message) (t : List ℕ) (stock : ℕ) (read : ReadResult) (bs : List ℕ)
      → IsLinked env hs h I k
      → Ready k.server.ibuf
      → IsStocked (6 + stock) k.server.pool
      → IsSendable f
      → f.id ≡ id_get_route_request
      → Room k.server.rest.obuf (length (reply parse serialize ctl m f.body).body)
      → IsSendable (reply parse serialize ctl m f.body)
      → length t < msg_len f
      → answer read ≡ some bs
      → 0 < length bs
      → bytes_of k.server.ibuf ++ bs ≡ encode f ++ t
      → capacity_of k.server.ibuf + length bs ≤ Pool.m8m
      → Yields
          (handle_read (some (pos (length bs))) read (dns_handlers parse serialize ctl m) k.server)
          λ j. IsLinked env hs h I (replied k f.body j)
  request-IsLinked k f t stock read bs v ready s sendable asks room fits short came some_came all
        small =
      let g = reply parse serialize ctl m f.body in
      Yields-mono
        (handle_read (some (pos (length bs))) read (dns_handlers parse serialize ctl m) k.server) _
        _
        (handle_read-get_route parse serialize ctl m k.sent f t stock k.server read bs v.sending
          ready s sendable asks room short came some_came all small)
        λ j r.
          serves_lem env hs h I handling k (k.sent ++ g ∷ []) (g ∷ []) j r.0
            (All-snoc k.sent g v.sendable fits) refl v

  -- From a link in order, whose client has handlers that keep `I`: the service reads bytes that are,
  -- with those that wait, one sendable GetRouteRequest and fewer bytes than it has, where the pool, the
  -- output buffer and the largest block have room and the reply can be sent. However the link goes on,
  -- what the server has sent is what it had sent before the request, then the reply, then other
  -- messages; the client has handled a beginning of it in this order; and the bytes that the client has
  -- read are those of the messages that it has handled and of the beginning of one more.
  pub Reach-reply :
      (k l : Link) (f : Message) (t : List ℕ) (stock : ℕ) (read : ReadResult) (bs : List ℕ)
      (j : Inbound Conn)
      → IsLinked env hs h I k
      → Ready k.server.ibuf
      → IsStocked (6 + stock) k.server.pool
      → IsSendable f
      → f.id ≡ id_get_route_request
      → Room k.server.rest.obuf (length (reply parse serialize ctl m f.body).body)
      → IsSendable (reply parse serialize ctl m f.body)
      → length t < msg_len f
      → answer read ≡ some bs
      → 0 < length bs
      → bytes_of k.server.ibuf ++ bs ≡ encode f ++ t
      → capacity_of k.server.ibuf + length bs ≤ Pool.m8m
      → handle_read (some (pos (length bs))) read (dns_handlers parse serialize ctl m) k.server
        ≡ ok j
      → Reach env hs h (replied k f.body j) l
      → (handled waiting later : List Message) × (part : List ℕ) × I handled l.client.rest
        × (l.sent ≡ k.sent ++ (reply parse serialize ctl m f.body ∷ later))
        × (l.sent ≡ handled ++ waiting)
        × (l.taken ≡ stream handled ++ part)
        × IsPartial part
  Reach-reply k l f t stock read bs j v ready s sendable asks room fits short came some_came all
        small run r =
      let g = reply parse serialize ctl m f.body in
      let linked : IsLinked env hs h I (replied k f.body j) =
        Yields-ok
          (handle_read (some (pos (length bs))) read (dns_handlers parse serialize ctl m) k.server)
          (λ i. IsLinked env hs h I (replied k f.body i)) j
          (request-IsLinked k f t stock read bs v ready s sendable asks room fits short came
            some_came all small)
          run in
      let w = Reach-IsLinked env hs h I handling linked r in
      let (later, e) = sent_grows env hs h r in
      (
        w.handled,
        w.waiting,
        later,
        bytes_of l.client.ibuf,
        w.is_handled,
        e ∙ append_assoc k.sent (g ∷ []) later,
        w.all,
        w.bytes,
        w.partial,
      )
