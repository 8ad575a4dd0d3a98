-- ===== src/Net/Frames/Delivery.antt =====
-- What the read loops hand to the handlers.
use lars_study.Prelude.{
  ℕ, zero, suc, ◌+◌, ◌-◌, ◌≤◌, ◌<◌, ◌≡◌, ◌⊎◌, inl, inr, sym, ap, ◌∙◌, List, [], ◌∷◌, ◌++◌,
  append_assoc, append-nil, none, some, arith, pos, to_int, to_u32, to_int-to_u32, to_u32-lt,
  to_u32_pos, to_int_small, le→ltb, lt→ltb, length, length-append, append-left_cancel, lt→ltb,
  u32_mod, All, Outcome, ok, ◌*◌, Yields, Yields-bind, Returns-Spares,
}
use lars_study.Buffer.Memory.{slice, length-slice, slice-prefix}
use lars_study.Buffer.IoBuf.{IoBuf, contents}
use lars_study.Buffer.Pool
use lars_study.Buffer.Pool.{Pool}
use lars_study.Buffer.ReactorBuf
use lars_study.Buffer.ReactorBuf.{ReactorBuf, Held, IsHeld, InBlock, bytes_of}
use lars_study.Buffer.ReactorBuf.Pop.{Pops, pop-Returns}
use lars_study.Buffer.ReactorBuf.Stock.{pop-Spares}
use lars_study.Buffer.Pool.Stock.{IsStocked}
use lars_study.Net.Frames.Handling.{Handling, Due, first_share, last_share}
use lars_study.Net.Message.{
  Message, msg_len, encode, encode32, decode32, message_max_size, IsSendable, encode_split,
  length-encode, stream,
}
use lars_study.Net.Frames.{Inbound, Handlers, call, consume, frame_step, next_round, frame_loop}
use lars_study.Net.Frames.Header.{header_lem}

-- Where the bytes from `base` on begin with the encoding of a message that can be sent, the header
-- reads back as its id and its length, the bytes behind it as its body, and what follows is the rest.
pub message_at :
    (b : IoBuf) (base n : ℕ) (f : Message) (t : List ℕ)
    → IsSendable f
    → slice b.bytes base n ≡ encode f ++ t
    → (to_int (decode32 (slice b.bytes base 4)) ≡ f.id)
      × (to_int (decode32 (slice b.bytes (base + 4) 4)) ≡ pos (msg_len f))
      × (slice b.bytes (base + 8) (length f.body) ≡ f.body)
      × (msg_len f + length t ≡ n)
message_at b base n f t s h =
    let (id, len, rest, whole) =
      header_lem b.bytes base n (to_u32 f.id) (to_u32 (pos (msg_len f))) (f.body ++ t)
        (to_u32-lt f.id) (to_u32-lt (pos (msg_len f))) (h ∙ encode_split f t) in
    let (body, _, split) = slice-prefix b.bytes (base + 8) (length (f.body ++ t)) f.body t rest in
    (
      ap to_int id ∙ to_int-to_u32 f.id s.id_fits,
      ap to_int len
          ∙ rw (to_u32_pos (msg_len f) (omega arith)) (to_int_small (msg_len f) (omega arith)),
      body,
      omega (arith, whole, split),
    )

-- `pop` needs no buffer.
pop_stocked :
    (b : IoBuf) (n stock : ℕ) (p : Pool)
    → IsHeld b
    → Pool.IsValid p
    → IsStocked stock p
    → n ≤ b.length
    → Yields (ReactorBuf.pop (some b) (pos n) p) λ r. Pops b n r × IsStocked stock r.1
pop_stocked b n stock p h v s l =
    Returns-Spares (ReactorBuf.pop (some b) (pos n) p) (Pops b n) _ (pop-Returns b n p h v l)
      (pop-Spares stock (some b) (pos n) p s)

-- Too little for a message: less than a header, or a header that announces more than has come.
abbrev pub IsPartial : List ℕ → Type 0
IsPartial t =
    (length t < 8)
    ⊎ ((id : ℕ) × (len : ℕ) × (r : List ℕ) × (t ≡ encode32 id ++ (encode32 len ++ r))
        × (id < u32_mod)
        × (len ≤ message_max_size)
        × (length t < len))

module _ {S : Type 0} (hs : Handlers S) (h : ℕ) (I : List Message → S → Type 0)
    (P : List Message → Message → Type 0) (handling : Handling hs h I P) where
  -- After a message of `n` bytes was handled.
  abbrev pub After : IoBuf → ℕ → ℕ → List Message → Inbound S → Type 0
  After b n stock ds i =
      Pool.IsValid i.pool
      × IsStocked stock i.pool
      × I ds i.rest
      × Held i.ibuf
      × InBlock b i.ibuf
      × (contents b ≡ slice b.bytes b.head n ++ bytes_of i.ibuf)

  consume-Yields :
      (again : Inbound S → Outcome (Inbound S)) (Q : Inbound S → Type 0) (i : Inbound S) (b : IoBuf)
      (base n stock : ℕ) (f : Message) (t : List ℕ) (ds : List Message)
      → IsSendable f
      → slice b.bytes base n ≡ encode f ++ t
      → Pool.IsValid i.pool
      → IsStocked (h + stock) i.pool
      → P ds f
      → I ds i.rest
      → IsHeld b
      → msg_len f ≤ b.length
      → ((j : Inbound S) → After b (msg_len f) stock (ds ++ f ∷ []) j → Yields (again j) Q)
      → Yields (consume hs again i b base (msg_len f)) Q
  unfolding consume
  consume-Yields again Q i b base n stock f t ds s e v st due w hb l k =
      let (id, _, body, _) = message_at b base n f t s e in
      let rest : msg_len f - 8 ≡ length f.body = omega arith in
      rw (le→ltb (msg_len f) 8 (omega arith), id, rest, body)
        (Yields-bind (call (hs f.id) f.id f.body i.pool i.rest) _ _ _
          (handling.handles ds f i.pool i.rest stock v st w due)
          λ r handled.
            Yields-bind (ReactorBuf.pop (some b) (pos (msg_len f)) r.0) _ _ _
              (pop_stocked b (msg_len f) stock r.0 hb handled.0 handled.1 l)
              λ q popped. let (p, s') = popped in k _ (p.0, s', handled.2, p.1, p.3, p.2))

  pub frame_step-Yields :
      (on_error again : Inbound S → Outcome (Inbound S)) (Q : Inbound S → Type 0) (i : Inbound S)
      (b : IoBuf) (base n stock : ℕ) (f : Message) (t : List ℕ) (ds : List Message)
      → IsSendable f
      → slice b.bytes base n ≡ encode f ++ t
      → Pool.IsValid i.pool
      → IsStocked (h + stock) i.pool
      → P ds f
      → I ds i.rest
      → IsHeld b
      → msg_len f ≤ b.length
      → ((j : Inbound S) → After b (msg_len f) stock (ds ++ f ∷ []) j → Yields (again j) Q)
      → Yields (frame_step on_error hs again i b base) Q
  unfolding frame_step
  frame_step-Yields on_error again Q i b base n stock f t ds s e v st due w hb l k =
      rw
        (
          to_int_small b.length (omega arith),
          (message_at b base n f t s e).1,
          le→ltb b.length 8 (omega arith),
          le→ltb message_max_size (msg_len f) s.size_fits,
          le→ltb (msg_len f) 0 (omega arith),
          le→ltb b.length (msg_len f) l,
        )
        (consume-Yields again Q i b base n stock f t ds s e v st due w hb l k)

  -- What a read leaves: the messages `ds` handled in their order, and the bytes `t` still to come.
  abbrev pub Delivered : ℕ → List Message → List ℕ → Inbound S → Type 0
  Delivered stock ds t i =
      I ds i.rest
      × Pool.IsValid i.pool
      × IsStocked stock i.pool
      × Held i.ibuf
      × (bytes_of i.ibuf ≡ t)

  partial_round :
      (on_error again : Inbound S → Outcome (Inbound S)) (at : IoBuf → ℕ) (i : Inbound S)
      (b : IoBuf) (t : List ℕ)
      → IsHeld b
      → slice b.bytes (at b) b.length ≡ t
      → IsPartial t
      → frame_step on_error hs again i b (at b) ≡ ok i
  unfolding frame_step
  partial_round on_error again at i b t hb e (inl short) =
      let n : length t ≡ b.length = ap length (sym e) ∙ length-slice b.bytes (at b) b.length in
      rw (to_int_small b.length (omega arith), lt→ltb b.length 8 (omega arith))
  partial_round on_error again at i b t hb e (inr (id, len, r, h, id_fits, len_fits, more)) =
      let n : length t ≡ b.length = ap length (sym e) ∙ length-slice b.bytes (at b) b.length in
      let (_, l, _, whole) =
        header_lem b.bytes (at b) b.length id len r id_fits (omega arith) (e ∙ h) in
      rw (
        to_int_small b.length (omega arith),
        le→ltb b.length 8 (omega (arith, whole)),
        l,
        to_int_small len (omega arith),
        le→ltb message_max_size len len_fits,
        le→ltb len 0 (omega arith),
        lt→ltb b.length len (omega arith),
      )

  rest_of :
      (b : IoBuf) (f : Message) (t x : List ℕ)
      → contents b ≡ encode f ++ t
      → contents b ≡ slice b.bytes b.head (msg_len f) ++ x
      → x ≡ t
  rest_of b f t x h k =
      let (whole, _, _) = slice-prefix b.bytes b.head b.length (encode f) t h in
      append-left_cancel (encode f) x t
        (ap (λ s. s ++ x) (sym whole ∙ ap (slice b.bytes b.head) (length-encode f)) ∙ sym k ∙ h)

  -- The loop that reads each header where the bytes still to be handled begin.
  pub frame_loop-Delivered :
      (on_error : Inbound S → Outcome (Inbound S)) (fs : List Message) (fuel stock : ℕ)
      (ds : List Message) (t : List ℕ) (m : ReactorBuf) (p : Pool) (w : S)
      → length fs < fuel
      → Delivered
          (length fs * h + stock)
          ds
          (stream fs ++ t)
          (record { ibuf = m; pool = p; rest = w })
      → All IsSendable fs
      → Due P ds fs
      → IsPartial t
      → Yields
          (frame_loop fuel (λ b. b.head) on_error hs (record { ibuf = m; pool = p; rest = w }))
          (Delivered stock (ds ++ fs) t)
  unfolding frame_loop next_round
  frame_loop-Delivered on_error fs zero stock ds t m p w l d s due q = absurd (omega arith)
  frame_loop-Delivered on_error [] (suc fuel) stock ds t none p w l d s due q =
      rw append-nil (d.0, d.1, last_share h stock p d.2, d.3, d.4)
  frame_loop-Delivered on_error [] (suc fuel) stock ds t (some b) p w l d s due q =
      rw
        (partial_round on_error (frame_loop fuel (λ b. b.head) on_error hs) (λ b. b.head) _ b t d.3
          d.4 q)
        (rw append-nil (d.0, d.1, last_share h stock p d.2, d.3, d.4))
  frame_loop-Delivered on_error (f ∷ fs) (suc fuel) stock ds t none p w l d s due q = absurd (
      omega (
        arith,
        ap length (d.4 ∙ append_assoc (encode f) (stream fs) t),
        length-append (encode f) (stream fs ++ t),
        length-encode f,
      ))
  frame_loop-Delivered on_error (f ∷ fs) (suc fuel) stock ds t (some b) p w l d s due q =
      let e : contents b ≡ encode f ++ (stream fs ++ t) =
        d.4 ∙ append_assoc (encode f) (stream fs) t in
      let n : msg_len f + length (stream fs ++ t) ≡ b.length =
        (message_at b b.head b.length f (stream fs ++ t) s.0 e).3 in
      frame_step-Yields on_error (frame_loop fuel (λ b. b.head) on_error hs) _ _ b b.head b.length
        (length fs * h + stock) f (stream fs ++ t) ds s.0 e d.1
        (first_share h (length fs) stock p d.2) due.0 d.0 d.3 (omega (arith, n))
        λ j a. rw (← append_assoc ds (f ∷ []) fs) (
          frame_loop-Delivered on_error fs fuel stock (ds ++ f ∷ []) t j.ibuf j.pool j.rest
            (omega arith) (a.2, a.0, a.1, a.3, rest_of b f (stream fs ++ t) (bytes_of j.ibuf) e a.5)
            s.1 due.1 q)
