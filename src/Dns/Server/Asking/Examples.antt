-- ===== src/Dns/Server/Asking/Examples.antt =====
-- A client's request on a new connection.
use lars_study.Prelude.{
  ℕ, ◌+◌, ◌≡◌, refl, ap, sym, ◌∙◌, true, List, [], ◌∷◌, ◌++◌, append_assoc, append-nil, some, none,
  pos, ok, arith, length, natural, inl, Outcome, stop, Yields,
}
use lars_study.Buffer.Pool.{buf_pool}
use lars_study.Buffer.Pool.Init.{buf_pool-IsValid}
use lars_study.Buffer.Pool.Stock.{IsStocked-le, buf_pool-IsStocked}
use lars_study.Buffer.InputBuf.{got}
use lars_study.Net.Message.{Message, encode, length-encode, stream, IsSendable}
use lars_study.Net.Frames.{Inbound, Handler, Handlers, call}
use lars_study.Net.Frames.Handling.{Handling}
use lars_study.Net.Frames.Delivery.{IsPartial}
use lars_study.Net.EventLoop.{event_loop}
use lars_study.Net.TcpConn.{Conn, connected, handle_read}
use lars_study.Net.TcpClient
use lars_study.Net.TcpClient.{Client, Env, in_progress}
use lars_study.Net.TcpClient.Receiving.{Handled, handle_read-delivers}
use lars_study.Net.Link.Flushing.{Flushed, Reach-flushed}
use lars_study.Net.Link.{Link, reads, next}
use lars_study.Net.Link.Sent.{Asked}
use lars_study.Net.Link.Delivery.{IsLinked}
use lars_study.Dns.Subscribe.{GetRouteResponse}
use lars_study.Dns.Route.{RouteMap}
use lars_study.Dns.Server.{GetRouteRequest, get_route, dns_handlers}
use lars_study.Dns.Server.Serving.{reply}
use lars_study.Dns.Server.Asking.{request-IsLinked, Reach-reply}

-- One byte for each field.
abbrev parse : List ℕ → GetRouteRequest
parse (modid ∷ cmdid ∷ l) = record { modid = pos modid; cmdid = pos cmdid }
parse l = record { modid = pos 0; cmdid = pos 0 }

-- The bytes name the module only.
abbrev module_named : GetRouteResponse → List ℕ
module_named r = natural r.modid ∷ natural r.cmdid ∷ []

-- One host, 127.0.0.1:7777, for every module.
abbrev everywhere : RouteMap
everywhere k = some (9151314447111822945 ∷ [])

abbrev request : Message
request = record { id = pos 1; body = 1 ∷ 2 ∷ [] }

abbrev env : Env
env = record { on_build = none; on_close = none; ctl = true; connect = in_progress }

-- A client whose handlers note the bodies they are given, in the field `wire`.
abbrev note : Handler Client
note id body p c = ok (p, record c { wire = c.wire ++ body })

abbrev notes : Handlers Client
notes id = some note

abbrev bodies : List Message → List ℕ
bodies [] = []
bodies (f ∷ fs) = f.body ++ bodies fs

bodies-append : (fs : List Message) (f : Message) → bodies (fs ++ f ∷ []) ≡ bodies fs ++ f.body
bodies-append [] f = append-nil f.body
bodies-append (g ∷ fs) f =
    ap (◌++◌ g.body) (bodies-append fs f) ∙ sym (append_assoc g.body (bodies fs) f.body)

abbrev Noted : List Message → Client → Type 0
Noted fs c = (c.wire ≡ bodies fs) × (c.is_connected ≡ true)

notes_handling : Handling notes 0 Noted Asked
unfolding call
notes_handling = record {
  handles = λ ds f p s stock v st e due. (
    v,
    IsStocked-le stock (0 + stock) p (omega arith) st,
    (ap (λ l. l ++ f.body) e.0 ∙ sym (bodies-append ds f), e.1),
  );
}

abbrev link : Link
link = record {
  sent = [];
  server = record {
    ibuf = none;
    pool = buf_pool;
    rest = record {
      fd = 5;
      state = connected;
      obuf = none;
      loop = event_loop;
      conns = λ i. true;
      closed = [];
      wire = [];
    };
  };
  taken = [];
  client = record {
    ibuf = none;
    pool = buf_pool;
    rest = record { fd = 6; is_connected = true; obuf = none; loop = event_loop; wire = [] };
  };
}

link-IsLinked : IsLinked env notes 0 Noted link
link-IsLinked = record {
  sending = record {
    pool_valid = buf_pool-IsValid;
    input = tt;
    output = tt;
    is_open = refl;
    bytes = refl;
    armed = λ l. absurd (omega arith);
  };
  sendable = tt;
  handled = [];
  waiting = [];
  left = [];
  all = refl;
  bytes = refl;
  rest = refl;
  partial = inl (omega arith);
  is_handled = (refl, refl);
  is_open = refl;
  input = tt;
  pool_valid = buf_pool-IsValid;
}

found : {A : Type 0} (m : Outcome A) (P : A → Type 0) → Yields m P → (a : A) × (m ≡ ok a) × P a
found (ok a) P h = (a, refl, h)
found (stop x) P h = elim h [ ]

request-IsSendable : IsSendable request
request-IsSendable = record { id_fits = omega arith; size_fits = omega arith }

reply-IsSendable : IsSendable (reply parse module_named true everywhere (1 ∷ 2 ∷ []))
unfolding get_route
reply-IsSendable = record { id_fits = omega arith; size_fits = omega arith }

-- The service reads the request.
reading :
    (j : Inbound Conn) × (handle_read
        (some (pos (length (encode request))))
        (got (encode request))
        (dns_handlers parse module_named true everywhere)
        (link.server)
      ≡ ok j)
    × IsLinked env notes 0 Noted (record link {
      sent = reply parse module_named true everywhere (1 ∷ 2 ∷ []) ∷ [];
      server = j;
    })
unfolding get_route
reading = found _ _ (
    request-IsLinked parse module_named true everywhere env notes 0 Noted notes_handling link
      request [] 14 (got (encode request)) (encode request) link-IsLinked tt buf_pool-IsStocked
      request-IsSendable refl (omega arith) reply-IsSendable (omega arith) refl
      (omega (arith, length-encode request)) (sym (append-nil (encode request)))
      (omega (arith, length-encode request)))

abbrev answer_message : Message
answer_message = reply parse module_named true everywhere (1 ∷ 2 ∷ [])

abbrev replied_link : Link
replied_link = record link { sent = answer_message ∷ []; server = reading.0 }

-- The socket takes the reply.
flushing : Flushed env notes 0 replied_link reading.2.sending (reply-IsSendable, tt)
flushing = Reach-flushed env notes 0 replied_link reading.2.sending (reply-IsSendable, tt)

abbrev flushed_link : Link
flushed_link = record replied_link { server = flushing.0 }

-- The client reads it.
handling_reply :
    (j : Inbound Client) × (TcpClient.handle_read env
        (some (pos 10))
        (some (pos (length (encode answer_message))))
        (got (encode answer_message))
        notes
        (link.client)
      ≡ ok j)
    × Handled env notes 0 Noted Asked notes_handling 0 (answer_message ∷ []) [] j
unfolding get_route
handling_reply = found _ _ (
    handle_read-delivers env notes 0 Noted Asked notes_handling [] (answer_message ∷ []) [] 0
      (reply-IsSendable, tt) (reply-IsSendable, tt) (inl (omega arith)) (link.client) (pos 10)
      (got (encode answer_message)) (encode answer_message) refl tt buf_pool-IsValid
      (IsStocked-le _ _ buf_pool (omega arith) buf_pool-IsStocked) (refl, refl) refl
      (omega (arith, length-encode answer_message))
      (sym (append-nil (encode answer_message)) ∙ sym (append-nil (encode answer_message ++ [])))
      (omega (arith, length-encode answer_message)))

abbrev read_link : Link
read_link = record flushed_link { taken = encode answer_message; client = handling_reply.0 }

Reach-reply_example :
    (handled waiting later : List Message) × (part : List ℕ) × Noted handled handling_reply.0.rest
    × (answer_message ∷ [] ≡ answer_message ∷ later)
    × (answer_message ∷ [] ≡ handled ++ waiting)
    × (encode answer_message ≡ stream handled ++ part)
    × IsPartial part
unfolding get_route
Reach-reply_example =
    Reach-reply parse module_named true everywhere env notes 0 Noted notes_handling link read_link
      request [] 14 (got (encode request)) (encode request) reading.0 link-IsLinked tt
      buf_pool-IsStocked request-IsSendable refl (omega arith) reply-IsSendable (omega arith) refl
      (omega (arith, length-encode request)) (sym (append-nil (encode request)))
      (omega (arith, length-encode request)) reading.1
      (next flushing.1 (
        reads flushed_link (pos 10) (encode answer_message) [] (got (encode answer_message))
          handling_reply.0 flushing.2 refl (omega (arith, length-encode answer_message))
          (omega (arith, length-encode answer_message))
          (IsStocked-le _ _ buf_pool (omega arith) buf_pool-IsStocked) handling_reply.1
          handling_reply.2.0.1))
