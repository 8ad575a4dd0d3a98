-- ===== src/Net/TcpClient/Examples.antt =====
-- Runs of the client's end of a connection.
use lars_study.Prelude.{
  Option, Outcome, false, ℕ, ◌≡◌, refl, ap, sym, ◌∙◌, true, false, List, [], ◌∷◌, ◌++◌,
  append_assoc, append-nil, some, none, pos, ok, arith, Yields, ◌+◌, length, length-append, inl,
}
use lars_study.Buffer.Pool.{buf_pool}
use lars_study.Net.Frames.Handling.{Handling}
use lars_study.Buffer.Pool.Stock.{IsStocked-le, buf_pool-IsStocked}
use lars_study.Buffer.Pool.Init.{buf_pool-IsValid}
use lars_study.Buffer.InputBuf.{got, interrupted}
use lars_study.Net.Message.{Message, stream, IsSendable, encode, length-encode}
use lars_study.Net.Frames.{Inbound, Handler, Handlers, call}
use lars_study.Buffer.IoBuf.{IoBuf}
use lars_study.Net.EventLoop.{IoEvent, del_io_event, event_loop, epollin_only}
use lars_study.Net.TcpClient.{
  Callback, on_read, on_write, on_connect, Client, Env, in_progress, handle_read,
}
use lars_study.Net.TcpClient.Receiving.{Handled, handle_read-delivers}

abbrev env : Env
env = record { on_build = none; on_close = none; ctl = true; connect = in_progress }

abbrev client : Client
client = record { fd = 6; is_connected = true; obuf = none; loop = event_loop; wire = [] }

abbrev inbound : Inbound Client
inbound = record { ibuf = none; pool = buf_pool; rest = client }

abbrev ask : Message
ask = record { id = pos 1; body = 10 ∷ 11 ∷ [] }

abbrev tell : Message
tell = record { id = pos 2; body = 20 ∷ 21 ∷ [] }

ask-IsSendable : IsSendable ask
ask-IsSendable = record { id_fits = omega arith; size_fits = omega arith }

tell-IsSendable : IsSendable tell
tell-IsSendable = record { id_fits = omega arith; size_fits = omega arith }

-- Handlers that note the bodies they are given, in the field `wire`.
abbrev note : Handler Client
note id body p c = ok (p, record c { wire = c.wire ++ body })

abbrev notes : Handlers Client
notes id = some note

abbrev bodies : List Message → List ℕ
bodies [] = []
bodies (f ∷ fs) = f.body ++ bodies fs

bodies-append : (fs : List Message) (f : Message) → bodies (fs ++ f ∷ []) ≡ bodies fs ++ f.body
bodies-append [] f = append-nil f.body
bodies-append (g ∷ fs) f =
    ap (◌++◌ g.body) (bodies-append fs f) ∙ sym (append_assoc g.body (bodies fs) f.body)

abbrev Noted : List Message → Client → Type 0
Noted fs c = c.wire ≡ bodies fs

abbrev Asked : List Message → Message → Type 0
Asked ds f = Unit

notes_handling : Handling notes 0 Noted Asked
unfolding call
notes_handling = record {
  handles = λ ds f p s stock v st e due. (
    v,
    IsStocked-le stock (0 + stock) p (omega arith) st,
    ap (λ l. l ++ f.body) e ∙ sym (bodies-append ds f),
  );
}

-- What comes in: `ask`, `tell`, and three bytes of a third message.
abbrev arrived : List ℕ
arrived = stream (ask ∷ tell ∷ []) ++ 3 ∷ 0 ∷ 0 ∷ []

length-arrived : length arrived ≡ 23
length-arrived =
    let all = length-append (stream (ask ∷ tell ∷ [])) (3 ∷ 0 ∷ 0 ∷ []) in
    let both = length-append (encode ask) (stream (tell ∷ [])) in
    let last : length (stream (tell ∷ [])) ≡ 10 =
      ap length (append-nil (encode tell)) ∙ length-encode tell in
    all ∙ rw (both, last, length-encode ask)

handle_read-delivers_example :
    Yields
      (handle_read env
        (some (pos 23))
        (some (pos (length arrived)))
        (interrupted (got arrived))
        notes
        inbound)
      (Handled env notes 0 Noted Asked notes_handling 18 (ask ∷ tell ∷ []) (3 ∷ 0 ∷ 0 ∷ []))
handle_read-delivers_example =
    handle_read-delivers env notes 0 Noted Asked notes_handling [] (ask ∷ tell ∷ [])
      (3 ∷ 0 ∷ 0 ∷ []) 18 (ask-IsSendable, (tell-IsSendable, tt)) (tt, (tt, tt)) (inl (omega arith))
      inbound (pos 23) (interrupted (got arrived)) arrived refl tt buf_pool-IsValid
      buf_pool-IsStocked refl refl
      (omega (arith, length-append (stream (ask ∷ tell ∷ [])) (3 ∷ 0 ∷ 0 ∷ []))) refl
      (omega (arith, length-arrived))

-- The peer has gone while three bytes of a message wait.
abbrev three_bytes : IoBuf
three_bytes = record { bytes = λ i. 0; capacity = 4096; length = 3; head = 0 }

abbrev listened : IoEvent Callback
listened = record { event = epollin_only; read_callback = some on_read; write_callback = none }

abbrev listening : Inbound Client
listening = record inbound {
  ibuf = some three_bytes;
  rest = record client { loop = record event_loop { io_evs_map = λ fd. some listened } };
}

abbrev run : Callback → Inbound Client → Outcome (Inbound Client)
run on_read j = handle_read env (some (pos 0)) (some (pos 0)) (got []) notes j
run on_write j = ok j
run on_connect j = ok j

abbrev registered : Inbound Client → ℕ → Option (IoEvent Callback)
registered j fd = j.rest.loop.io_evs_map fd

abbrev del : ℕ → Inbound Client → Inbound Client
del fd j = record j { rest = record (j.rest) { loop = del_io_event j.rest.loop fd } }
