-- ===== src/Net/Link/Delivery.antt =====
-- What the client has handled of what the server sent.
use lars_study.Prelude.{
  ℕ, suc, ◌+◌, ◌*◌, ◌≤◌, ◌<◌, ◌≡◌, refl, ap, sym, subst, ◌∙◌, true, List, [], ◌∷◌, ◌++◌, All, some,
  append_assoc, append-nil, append-left_cancel, arith, ℤ, pos, length, length-append, ok, Yields-ok,
}
use native.Mathlib.Nat.{mul-le-mul_right}
use lars_study.Buffer.Pool
use lars_study.Buffer.Pool.{Pool}
use lars_study.Buffer.Pool.Stock.{IsStocked, IsStocked-le}
use lars_study.Buffer.ReactorBuf.{Ready, bytes_of, capacity_of}
use lars_study.Buffer.InputBuf.{ReadResult, answer}
use lars_study.Net.Message.{Message, stream, IsSendable}
use lars_study.Net.Frames.{Inbound, Handlers}
use lars_study.Net.Frames.Handling.{Handling}
use lars_study.Net.Frames.Delivery.{IsPartial}
use lars_study.Net.Frames.Cutting.{cut, partial_stream}
use lars_study.Net.TcpConn.{Conn}
use lars_study.Net.TcpConn.Trace
use lars_study.Net.TcpConn.Trace.{InOrder, Reach-InOrder}
use lars_study.Net.TcpClient.{Client, Env, handle_read}
use lars_study.Net.TcpClient.Receiving.{Handled, handle_read-delivers}
use lars_study.Net.Link.{Link, Step, serves, reads, Reach, here, next}
use lars_study.Net.Link.Sent.{Asked, stream_append, All-append, All-Due, accepted}

module _ (env : Env) (hs : Handlers Client) (h : ℕ) (I : List Message → Client → Type 0) where
  -- The client has handled a beginning `handled` of what was sent, in order; the bytes that wait in
  -- its buffer are the beginning of the next message.
  pub record IsLinked (k : Link) : Type 0 where
    pub sending : InOrder (k.sent, k.server)
    pub sendable : All IsSendable k.sent
    pub handled : List Message
    pub waiting : List Message
    pub left : List ℕ
    pub all : k.sent ≡ handled ++ waiting
    pub bytes : k.taken ≡ stream handled ++ bytes_of k.client.ibuf
    pub rest : bytes_of k.client.ibuf ++ left ≡ stream waiting
    pub partial : IsPartial (bytes_of k.client.ibuf)
    pub is_handled : I handled k.client.rest
    pub is_open : k.client.rest.is_connected ≡ true
    pub input : Ready k.client.ibuf
    pub pool_valid : Pool.IsValid k.client.pool

  module _ (handling : Handling hs h I Asked) where
    pub serves_lem :
        (k : Link) (ms new : List Message) (i : Inbound Conn)
        → InOrder (ms, i)
        → All IsSendable ms
        → ms ≡ k.sent ++ new
        → IsLinked k
        → IsLinked (record k { sent = ms; server = i })
    serves_lem k ms new i order sendable e v = record {
      sending = order;
      sendable = sendable;
      handled = v.handled;
      waiting = v.waiting ++ new;
      left = v.left ++ stream new;
      all = e ∙ ap (λ l. l ++ new) v.all ∙ append_assoc v.handled v.waiting new;
      bytes = v.bytes;
      rest =
          sym (append_assoc (bytes_of k.client.ibuf) v.left (stream new))
          ∙ ap (λ l. l ++ stream new) v.rest
          ∙ sym (stream_append v.waiting new);
      partial = v.partial;
      is_handled = v.is_handled;
      is_open = v.is_open;
      input = v.input;
      pool_valid = v.pool_valid;
    }

    -- What the client reads, and what is left after it, is what waits of the stream.
    read_bytes :
        (k : Link) (bs later : List ℕ)
        → k.server.rest.wire ≡ k.taken ++ (bs ++ later)
        → (v : IsLinked k)
        → (bytes_of k.client.ibuf ++ bs) ++ (later ++ bytes_of k.server.rest.obuf)
          ≡ stream v.waiting
    read_bytes k bs later e v =
        let whole : stream v.handled
              ++ ((bytes_of k.client.ibuf ++ bs) ++ (later ++ bytes_of k.server.rest.obuf))
            ≡ k.server.rest.wire ++ bytes_of k.server.rest.obuf =
          rw (e, v.bytes) (simp append_assoc) in
        append-left_cancel (stream v.handled) _ _
          (whole ∙ v.sending.bytes ∙ ap stream v.all ∙ stream_append v.handled v.waiting)

    -- The client's read, where the bytes are `fs` and less than a message.
    module _ (k : Link) (v : IsLinked k) (fs rest : List Message) (t bs : List ℕ)
        (all : v.waiting ≡ fs ++ rest) (bytes : bytes_of k.client.ibuf ++ bs ≡ stream fs ++ t)
        (partial : IsPartial t) where
      enough :
          IsStocked (suc (suc (length k.sent * h))) k.client.pool
          → IsStocked (suc (suc (length fs * h + 0))) k.client.pool
      enough s =
          let fewer : length fs ≤ length k.sent = omega (
            arith,
            ap length v.all,
            length-append v.handled v.waiting,
            ap length all,
            length-append fs rest,
          ) in
          IsStocked-le _ _ k.client.pool (omega (arith, mul-le-mul_right h fewer)) s

      handles_them :
          (first : ℤ) (read : ReadResult) (j : Inbound Client)
          → answer read ≡ some bs
          → 0 < length bs
          → capacity_of k.client.ibuf + length bs ≤ Pool.m8m
          → IsStocked (suc (suc (length k.sent * h))) k.client.pool
          → handle_read env (some first) (some (pos (length bs))) read hs k.client ≡ ok j
          → Handled env hs h I Asked handling 0 (v.handled ++ fs) t j
      handles_them first read j came some_came fits s run =
          let (_, waiting) =
            All-append v.handled v.waiting (subst (All IsSendable) v.all v.sendable) in
          let (sendable, _) = All-append fs rest (subst (All IsSendable) all waiting) in
          Yields-ok (handle_read env (some first) (some (pos (length bs))) read hs k.client)
            (Handled env hs h I Asked handling 0 (v.handled ++ fs) t) j
            (handle_read-delivers env hs h I Asked handling v.handled fs t 0 sendable
              (All-Due v.handled fs sendable) partial k.client first read bs v.is_open v.input
              v.pool_valid (enough s) v.is_handled came some_came bytes fits)
            run

      read_lem :
          (j : Inbound Client) (left : List ℕ)
          → t ++ left ≡ stream rest
          → j.rest.is_connected ≡ true
          → Handled env hs h I Asked handling 0 (v.handled ++ fs) t j
          → IsLinked (record k { taken = k.taken ++ bs; client = j })
      read_lem j left e is_open (is_handled, valid, _, ready, same) = record {
        sending = v.sending;
        sendable = v.sendable;
        handled = v.handled ++ fs;
        waiting = rest;
        left = left;
        all = v.all ∙ ap (◌++◌ v.handled) all ∙ sym (append_assoc v.handled fs rest);
        bytes =
            ap (λ l. l ++ bs) v.bytes
            ∙ append_assoc (stream v.handled) (bytes_of k.client.ibuf) bs
            ∙ ap (◌++◌ (stream v.handled)) (bytes ∙ ap (◌++◌ (stream fs)) (sym same))
            ∙ sym (append_assoc (stream v.handled) (stream fs) (bytes_of j.ibuf))
            ∙ ap (λ l. l ++ bytes_of j.ibuf) (sym (stream_append v.handled fs));
        rest = rw same e;
        partial = subst IsPartial (sym same) partial;
        is_handled = is_handled;
        is_open = is_open;
        input = ready;
        pool_valid = valid;
      }

    Step-IsLinked : {k l : Link} → Step env hs h k l → IsLinked k → IsLinked l
    Step-IsLinked (serves k ms i step sendable) v =
        let (new, e) = accepted step in
        serves_lem k ms new i (Reach-InOrder v.sending (Trace.next Trace.here step)) sendable e v
    Step-IsLinked (reads k first bs later read j e came some_came fits s run is_open) v =
        let (_, waiting) =
          All-append v.handled v.waiting (subst (All IsSendable) v.all v.sendable) in
        let (fs, rest, t, all, bytes, left, partial) =
          cut v.waiting (bytes_of k.client.ibuf ++ bs) (later ++ bytes_of k.server.rest.obuf)
            waiting (read_bytes k bs later e v) in
        read_lem k v fs rest t bs all bytes partial j (later ++ bytes_of k.server.rest.obuf) left
          is_open
          (handles_them k v fs rest t bs all bytes partial first read j came some_came fits s run)

    pub Reach-IsLinked : {k l : Link} → IsLinked k → Reach env hs h k l → IsLinked l
    Reach-IsLinked v here = v
    Reach-IsLinked v (next r step) = Step-IsLinked step (Reach-IsLinked v r)

    -- Once the client has read the bytes of all that was sent, it has handled all.
    all_taken :
        (k : Link) (v : IsLinked k)
        → k.taken ≡ stream k.sent
        → (w : List Message) → v.waiting ≡ w
        → k.sent ≡ v.handled
    all_taken k v e [] none_waits = v.all ∙ ap (◌++◌ v.handled) none_waits ∙ append-nil v.handled
    all_taken k v e (f ∷ w) waits =
        let (_, waiting) =
          All-append v.handled v.waiting (subst (All IsSendable) v.all v.sendable) in
        let whole : bytes_of k.client.ibuf ≡ stream v.waiting =
          append-left_cancel (stream v.handled) _ _
            (sym v.bytes ∙ e ∙ ap stream v.all ∙ stream_append v.handled v.waiting) in
        absurd (
          partial_stream f w (bytes_of k.client.ibuf) (subst (All IsSendable) waits waiting).0
            v.partial (whole ∙ ap stream waits))

    -- From a link in order, with handlers that keep `I`, after any sequence of messages that can be
    -- sent, of writable events and of reads of the client, which may cut the stream anywhere and end
    -- with the client connected, each with a largest block that takes the client's block and what
    -- comes in, and with two free buffers in each class and `h` more for each message sent: the
    -- messages that the client has handled are a beginning of those sent, each once and in order; and
    -- they are all of them once the client has read the bytes of all.
    pub Reach-handles :
        {k l : Link}
        → IsLinked k
        → Reach env hs h k l
        → (handled waiting : List Message) × I handled l.client.rest
          × (l.sent ≡ handled ++ waiting)
          × (l.taken ≡ stream l.sent → l.sent ≡ handled)
    Reach-handles v r =
        let w = Reach-IsLinked v r in
        (w.handled, w.waiting, w.is_handled, w.all, λ e. all_taken _ w e w.waiting refl)
