-- ===== src/Net/Link/Examples.antt =====
-- A message on its way from a server to a client.
use lars_study.Prelude.{
  ℕ, ◌+◌, ◌≡◌, refl, ap, sym, ◌∙◌, true, List, [], ◌∷◌, ◌++◌, append_assoc, append-nil, some, none,
  pos, ok, arith, length, inl, Outcome, stop, Yields,
}
use lars_study.Buffer.Pool.{buf_pool}
use lars_study.Buffer.Pool.Init.{buf_pool-IsValid}
use lars_study.Buffer.Pool.Stock.{IsStocked-le, buf_pool-IsStocked}
use lars_study.Buffer.InputBuf.{got}
use lars_study.Net.Message.{Message, encode, length-encode, stream, IsSendable}
use lars_study.Net.Frames.{Inbound, Handler, Handlers, call}
use lars_study.Net.Frames.Handling.{Handling}
use lars_study.Net.EventLoop.{event_loop}
use lars_study.Net.TcpConn.{Conn, connected}
use lars_study.Net.TcpClient.{Client, Env, in_progress, handle_read}
use lars_study.Net.TcpClient.Receiving.{Handled, handle_read-delivers}
use lars_study.Net.Link.{Link, reads, here, next}
use lars_study.Net.Link.Sent.{Asked}
use lars_study.Net.Link.Delivery.{IsLinked, Reach-handles}

abbrev env : Env
env = record { on_build = none; on_close = none; ctl = true; connect = in_progress }

abbrev ask : Message
ask = record { id = pos 1; body = 10 ∷ 11 ∷ [] }

ask-IsSendable : IsSendable ask
ask-IsSendable = record { id_fits = omega arith; size_fits = omega arith }

-- The socket of the server has taken the message.
abbrev server : Inbound Conn
server = record {
  ibuf = none;
  pool = buf_pool;
  rest = record {
    fd = 5;
    state = connected;
    obuf = none;
    loop = event_loop;
    conns = λ i. true;
    closed = [];
    wire = encode ask;
  };
}

abbrev client : Inbound Client
client = record {
  ibuf = none;
  pool = buf_pool;
  rest = record { fd = 6; is_connected = true; obuf = none; loop = event_loop; wire = [] };
}

abbrev link : Link
link = record { sent = ask ∷ []; server = server; taken = []; client = client }

-- Handlers that note the bodies they are given, in the field `wire`.
abbrev note : Handler Client
note id body p c = ok (p, record c { wire = c.wire ++ body })

abbrev notes : Handlers Client
notes id = some note

abbrev bodies : List Message → List ℕ
bodies [] = []
bodies (f ∷ fs) = f.body ++ bodies fs

bodies-append : (fs : List Message) (f : Message) → bodies (fs ++ f ∷ []) ≡ bodies fs ++ f.body
bodies-append [] f = append-nil f.body
bodies-append (g ∷ fs) f =
    ap (◌++◌ g.body) (bodies-append fs f) ∙ sym (append_assoc g.body (bodies fs) f.body)

abbrev Noted : List Message → Client → Type 0
Noted fs c = (c.wire ≡ bodies fs) × (c.is_connected ≡ true)

notes_handling : Handling notes 0 Noted Asked
unfolding call
notes_handling = record {
  handles = λ ds f p s stock v st e due. (
    v,
    IsStocked-le stock (0 + stock) p (omega arith) st,
    (ap (λ l. l ++ f.body) e.0 ∙ sym (bodies-append ds f), e.1),
  );
}

link-IsLinked : IsLinked env notes 0 Noted link
link-IsLinked = record {
  sending = record {
    pool_valid = buf_pool-IsValid;
    input = tt;
    output = tt;
    is_open = refl;
    bytes = refl;
    armed = λ l. absurd (omega arith);
  };
  sendable = (ask-IsSendable, tt);
  handled = [];
  waiting = ask ∷ [];
  left = stream (ask ∷ []);
  all = refl;
  bytes = refl;
  rest = refl;
  partial = inl (omega arith);
  is_handled = (refl, refl);
  is_open = refl;
  input = tt;
  pool_valid = buf_pool-IsValid;
}

found : {A : Type 0} (m : Outcome A) (P : A → Type 0) → Yields m P → (a : A) × (m ≡ ok a) × P a
found (ok a) P h = (a, refl, h)
found (stop x) P h = elim h [ ]

-- The client reads it.
reading :
    (j : Inbound Client) × (handle_read env
        (some (pos 10))
        (some (pos (length (encode ask))))
        (got (encode ask))
        notes
        client
      ≡ ok j)
    × Handled env notes 0 Noted Asked notes_handling 0 (ask ∷ []) [] j
reading = found _ _ (
    handle_read-delivers env notes 0 Noted Asked notes_handling [] (ask ∷ []) [] 0
      (ask-IsSendable, tt) (ask-IsSendable, tt) (inl (omega arith)) client (pos 10)
      (got (encode ask)) (encode ask) refl tt buf_pool-IsValid
      (IsStocked-le _ _ buf_pool (omega arith) buf_pool-IsStocked) (refl, refl) refl
      (omega (arith, length-encode ask))
      (sym (append-nil (encode ask)) ∙ sym (append-nil (encode ask ++ [])))
      (omega (arith, length-encode ask)))

Reach-handles_example :
    (handled waiting : List Message) × Noted handled reading.0.rest
    × (ask ∷ [] ≡ handled ++ waiting)
    × (encode ask ≡ stream (ask ∷ []) → ask ∷ [] ≡ handled)
Reach-handles_example = Reach-handles env notes 0 Noted notes_handling link-IsLinked (
    next here (
      reads link (pos 10) (encode ask) [] (got (encode ask)) reading.0
        (sym (append-nil (encode ask))) refl (omega (arith, length-encode ask))
        (omega (arith, length-encode ask))
        (IsStocked-le _ _ buf_pool (omega arith) buf_pool-IsStocked) reading.1 reading.2.0.1))
