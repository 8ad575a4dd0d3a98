-- ===== src/Net/Frames/Stale.antt =====
-- The read loop with a header pointer that stays where it was before the first round.
use lars_study.Prelude.{
  ℕ, zero, suc, ◌+◌, ◌*◌, ◌<◌, ◌≡◌, refl, sym, ap, ◌∙◌, List, [], ◌∷◌, ◌++◌, append_assoc,
  append-nil, some, none, arith, to_int_small, le→ltb, lt→ltb, length, length-append, replicate,
  Outcome, ok, Yields, Yields-mono, Bool-cases, ltb, inl, inr,
}
use lars_study.Buffer.Memory.{Memory, slice, length-slice}
use lars_study.Buffer.IoBuf.{IoBuf}
use lars_study.Buffer.Pool
use lars_study.Buffer.Pool.{Pool}
use lars_study.Buffer.ReactorBuf.{ReactorBuf, Held, IsHeld, InBlock, bytes_of}
use lars_study.Net.Message.{Message, msg_len, encode, message_max_size, IsSendable}
use lars_study.Net.Frames.{Inbound, Handlers, frame_step, next_round, frame_loop}
use lars_study.Net.Frames.Delivery.{message_at, frame_step-Yields}
use lars_study.Buffer.Pool.Stock.{IsStocked}
use lars_study.Net.Frames.Handling.{Handling, Due, first_share, last_share}

module _ {S : Type 0} (hs : Handlers S) (h : ℕ) (I : List Message → S → Type 0)
    (P : List Message → Message → Type 0) (handling : Handling hs h I P) where
  -- `f` was handled `k` times, and `r` bytes are left: the last of those that had come.
  abbrev pub Repeats : ℕ → List Message → Message → ℕ → ℕ → List ℕ → Inbound S → Type 0
  Repeats stock ds f k r bs i =
      I (ds ++ replicate k f) i.rest
      × Pool.IsValid i.pool
      × IsStocked stock i.pool
      × Held i.ibuf
      × (length (bytes_of i.ibuf) ≡ r)
      × ((past : List ℕ) × (bs ≡ past ++ bytes_of i.ibuf))

  stale_exit :
      (on_error again : Inbound S → Outcome (Inbound S)) (i : Inbound S) (b : IoBuf) (base : ℕ)
      (f : Message)
      → IsHeld b
      → IsSendable f
      → slice b.bytes base (msg_len f) ≡ encode f
      → b.length < msg_len f
      → frame_step on_error hs again i b base ≡ ok i
  unfolding frame_step
  stale_exit on_error again i b base f hb s e h = elim (Bool-cases (ltb b.length 8)) [
    | inl short ↦ rw (to_int_small b.length (omega arith), short)
    | inr long ↦ rw (
      to_int_small b.length (omega arith),
      long,
      (message_at b base (msg_len f) f [] s (e ∙ sym (append-nil (encode f)))).1,
      le→ltb message_max_size (msg_len f) s.size_fits,
      le→ltb (msg_len f) 0 (omega arith),
      lt→ltb b.length (msg_len f) h,
    )
  ]

  module _ (on_error : Inbound S → Outcome (Inbound S)) (mem : Memory) (base : ℕ) (f : Message)
      (r : ℕ) (s : IsSendable f) (at_base : slice mem base (msg_len f) ≡ encode f)
      (r_fits : r < msg_len f) where
    abbrev pub InMemory : ReactorBuf → Type 0
    InMemory none = Unit
    InMemory (some b) = b.bytes ≡ mem

    in_memory : (b : IoBuf) (m : ReactorBuf) → b.bytes ≡ mem → InBlock b m → InMemory m
    in_memory b none e h = tt
    in_memory b (some c) e h = h ∙ e

    pub repeat_loop :
        (k fuel stock : ℕ) (ds : List Message) (m : ReactorBuf) (p : Pool) (w : S)
        → k < fuel
        → I ds w
        → Due P ds (replicate k f)
        → Pool.IsValid p
        → IsStocked (k * h + stock) p
        → Held m
        → InMemory m
        → length (bytes_of m) ≡ k * msg_len f + r
        → Yields
            (frame_loop fuel (λ b. base) on_error hs (record { ibuf = m; pool = p; rest = w }))
            (Repeats stock ds f k r (bytes_of m))
    unfolding frame_loop next_round
    repeat_loop k zero stock ds m p w l i due v st held e n = absurd (omega arith)
    repeat_loop zero (suc fuel) stock ds none p w l i due v st held e n =
        (rw append-nil i, v, last_share h stock p st, held, omega arith, ([], refl))
    repeat_loop zero (suc fuel) stock ds (some b) p w l i due v st held e n =
        let c = length-slice b.bytes b.head b.length in
        rw
          (stale_exit on_error (frame_loop fuel (λ b. base) on_error hs) _ b base f held s
            (rw e at_base) (omega arith))
          (rw append-nil i, v, last_share h stock p st, held, omega arith, ([], refl))
    repeat_loop (suc k) (suc fuel) stock ds none p w l i due v st held e n = absurd (omega arith)
    repeat_loop (suc k) (suc fuel) stock ds (some b) p w l i due v st held e n =
        let c = length-slice b.bytes b.head b.length in
        frame_step-Yields hs h I P handling on_error (frame_loop fuel (λ b. base) on_error hs) _ _ b
          base (msg_len f) (k * h + stock) f [] ds s (rw (e, append-nil) at_base) v
          (first_share h k stock p st) due.0 i held (omega arith)
          λ j a.
            let first : List ℕ = slice b.bytes b.head (msg_len f) in
            Yields-mono (frame_loop fuel (λ b. base) on_error hs j)
              (Repeats stock (ds ++ f ∷ []) f k r (bytes_of j.ibuf)) _
              (repeat_loop k fuel stock (ds ++ f ∷ []) j.ibuf j.pool j.rest (omega arith) a.2 due.1
                a.0 a.1 a.3 (in_memory b j.ibuf e a.4)
                (omega (
                  arith,
                  c,
                  n,
                  ap length a.5,
                  length-append first (bytes_of j.ibuf),
                  length-slice b.bytes b.head (msg_len f),
                )))
              λ q d. (
                rw append_assoc at d.0,
                d.1,
                d.2,
                d.3,
                d.4,
                (
                  first ++ d.5.0,
                  a.5 ∙ ap (◌++◌ first) d.5.1 ∙ sym (append_assoc first d.5.0 (bytes_of q.ibuf)),
                ),
              )
