-- ===== src/Buffer/OutputBuf/Draining.antt =====
-- What leaves the output buffer goes to the socket, in order and once.
use lars_study.Prelude.{
  ℕ, ◌-◌, ◌≤◌, ◌<◌, ◌≡◌, refl, sym, ap, subst, ◌∙◌, true, false, List, [], ◌∷◌, ◌++◌, append_assoc,
  none, some, ltb, ℤ, pos, negsuc, ltb_ℤ, eqb_ℤ, Outcome, ok, stop, assert_failed, ◌>>=◌, arith,
  Yields, Yields-mono, eq→==, inl, inr, Bool-cases, length, to_int_small, ne→==, lt→ltb, le→ltb,
  int_bound,
}
use lars_study.Buffer.Memory.{slice, length-slice}
use lars_study.Buffer.IoBuf
use lars_study.Buffer.IoBuf.{IoBuf, contents}
use lars_study.Buffer.IoBuf.Contents.{
  contents-adjust, adjust-IsValid, head-adjust, capacity-adjust, pop-IsValid, contents-pop,
  length-pop, capacity-pop,
}
use lars_study.Buffer.ReactorBuf.{ReactorBuf, Ready, IsReady, bytes_of, buf_length}
use lars_study.Buffer.OutputBuf.{
  WriteResult, wrote, would_block, failed, interrupted, taken, write_out, write2fd, Drained,
  after_write, drain, Offered,
}

-- What a write takes off the front.
abbrev Writes : IoBuf → ℕ → ℤ × ReactorBuf × List ℕ → Type 0
Writes b n (ret, m, bs) =
    Ready m × (contents b ≡ bs ++ bytes_of m) × (length (bytes_of m) ≡ b.length - n)

-- The bytes behind the first `n`, moved to the front of the block.
advance_lem :
    (b : IoBuf) (n : ℕ)
    → IsReady b
    → n ≤ b.length
    → Writes b n (pos n, some (IoBuf.adjust (IoBuf.pop b n)), slice b.bytes 0 n)
advance_lem b n rb h =
    let c = IoBuf.pop b n in
    (
      record {
        valid = adjust-IsValid c (pop-IsValid b n h rb.valid);
        class = rw (capacity-adjust c, capacity-pop b n) rb.class;
        at_start = head-adjust c;
      },
      contents-pop b n h rb.valid
          ∙ ap (λ k. slice b.bytes k n ++ contents c) rb.at_start
          ∙ ap (◌++◌ (slice b.bytes 0 n)) (sym (contents-adjust c)),
      ap length (contents-adjust c)
          ∙ length-slice c.bytes c.head c.length
          ∙ length-pop b n h rb.valid,
    )

nothing_taken : (b : IoBuf) (z : ℤ) (n : ℕ) → IsReady b → n ≡ 0 → Writes b n (z, some b, [])
nothing_taken b z n rb e = (rb, refl, omega (arith, length-slice b.bytes b.head b.length))

write_out-Writes :
    (b : IoBuf) (r : WriteResult)
    → IsReady b
    → taken r ≤ b.length
    → Writes b (taken r) (write_out b r)
unfolding write_out
write_out-Writes b (wrote n) rb h = elim (Bool-cases (ltb 0 n)) [
  | inr e ↦ rw (e, write_out) (nothing_taken b (pos 0) n rb (ground arith))
  | inl e ↦ rw (e, write_out) (advance_lem b n rb h)
]
write_out-Writes b would_block rb h = nothing_taken b (pos 0) 0 rb refl
write_out-Writes b failed rb h = nothing_taken b (negsuc 0) 0 rb refl
write_out-Writes b (interrupted r) rb h = write_out-Writes b r rb h

-- Nothing is lost, repeated or reordered between the buffer and the socket.
abbrev pub Drains : ReactorBuf → List ℕ → Drained → Type 0
Drains m out d = Ready d.obuf × (out ++ bytes_of m ≡ d.sent ++ bytes_of d.obuf)

after_write-Yields :
    (b : IoBuf) (n : ℕ) (out : List ℕ) (again : ReactorBuf → List ℕ → Outcome Drained)
    (w : ℤ × ReactorBuf × List ℕ)
    → Writes b n w
    → ((m : ReactorBuf) (o : List ℕ)
        → Ready m
        → length (bytes_of m) ≡ b.length - n
        → Yields (again m o) (Drains m o))
    → Yields (after_write out again w) (Drains (some b) out)
unfolding after_write
after_write-Yields b n out again (ret, m, bs) w k =
    let all : out ++ contents b ≡ (out ++ bs) ++ bytes_of m =
      ap (◌++◌ out) w.1 ∙ sym (append_assoc out bs (bytes_of m)) in
    elim (Bool-cases (ltb_ℤ ret (pos 0))) [
      | inl e ↦ rw e (w.0, all)
      | inr e ↦ elim (Bool-cases (eqb_ℤ ret (pos 0))) [
        | inl f ↦ rw (e, f) (w.0, all)
        | inr f ↦
            rw (e, f)
              (Yields-mono (again m (out ++ bs)) (Drains m (out ++ bs)) _ (k m (out ++ bs) w.0 w.2)
                λ d q. (q.0, all ∙ q.1))
      ]
    ]

write2fd-Yields :
    (b : IoBuf) (r : WriteResult) (out : List ℕ) (again : ReactorBuf → List ℕ → Outcome Drained)
    → IsReady b
    → taken r ≤ b.length
    → ((m : ReactorBuf) (o : List ℕ)
        → Ready m
        → length (bytes_of m) ≡ b.length - taken r
        → Yields (again m o) (Drains m o))
    → Yields (write2fd (some b) r >>= after_write out again) (Drains (some b) out)
unfolding write2fd
write2fd-Yields b r out again rb h k =
    rw (eq→== b.head 0 rb.at_start)
      (after_write-Yields b (taken r) out again (write_out b r) (write_out-Writes b r rb h) k)

-- With a buffer in order and a socket that takes no more than it is offered, the loop returns,
-- and the bytes that the socket took and those that wait after it are, in order, the bytes that
-- waited.
pub drain-Yields :
    (rs : List WriteResult) (m : ReactorBuf) (out : List ℕ)
    → Ready m
    → Offered rs (length (bytes_of m))
    → Yields (drain rs m out) (Drains m out)
unfolding drain buf_length
drain-Yields [] none out rb h = (tt, refl)
drain-Yields (r ∷ rs) none out rb h = (tt, refl)
drain-Yields [] (some b) out rb h = elim (Bool-cases (ltb_ℤ (pos 0) (buf_length (some b)))) [
  | inr e ↦ rw e (rb, refl)
  | inl e ↦ rw e (
      write2fd-Yields b would_block out (λ m o. ok (record { broken = false; obuf = m; sent = o }))
        rb (omega arith) λ m o q _. (q, refl))
]
drain-Yields (r ∷ rs) (some b) out rb h = elim (Bool-cases (ltb_ℤ (pos 0) (buf_length (some b)))) [
  | inr e ↦ rw e (rb, refl)
  | inl e ↦
      let n = length-slice b.bytes b.head b.length in
      rw e (
        write2fd-Yields b r out (drain rs) rb (omega (arith, n, h.0)) λ m o q l.
          drain-Yields rs m o q (subst (Offered rs) (ap (λ k. k - taken r) n ∙ sym l) h.1))
]

-- Bytes that do not stand at the start of the block cannot be written.
pub drain_moved :
    (r : WriteResult) (rs : List WriteResult) (b : IoBuf) (out : List ℕ)
    → 0 < b.head
    → 0 < b.length
    → b.length < int_bound
    → drain (r ∷ rs) (some b) out ≡ stop assert_failed
unfolding drain write2fd buf_length
drain_moved r rs b out h l s =
    rw (to_int_small b.length s, lt→ltb 0 b.length l, ne→== b.head 0 (omega arith))

none_left : (c : IoBuf) → c.length ≡ 0 → contents c ≡ []
unfolding slice
none_left c e = rw e refl

-- A socket that takes all leaves nothing in the buffer.
pub drain_whole :
    (b : IoBuf)
    → IsReady b
    → 0 < b.length
    → (m : ReactorBuf) × (drain (wrote b.length ∷ []) (some b) []
        ≡ ok (record { broken = false; obuf = m; sent = contents b }))
      × Ready m
      × (bytes_of m ≡ [])
      × (eqb_ℤ (buf_length m) (pos 0) ≡ true)
unfolding drain after_write write2fd write_out buf_length
drain_whole b rb some_wait =
    let n = b.length in
    let m = some (IoBuf.adjust (IoBuf.pop b n)) in
    let (ready, all, left) = advance_lem b n rb (omega arith) in
    let c = IoBuf.adjust (IoBuf.pop b n) in
    let empty : c.length ≡ 0 = omega (arith, left, length-slice c.bytes c.head c.length) in
    let front : slice b.bytes 0 n ≡ contents b = ap (λ k. slice b.bytes k n) (sym rb.at_start) in
    (
      m,
      rw (
        to_int_small n (omega (arith, rb.valid.within, rb.valid.small)),
        lt→ltb 0 n some_wait,
        eq→== b.head 0 rb.at_start,
        le→ltb n 0 (omega arith),
        ne→== n 0 (omega arith),
        empty,
        to_int_small 0 (omega arith),
        front,
      ),
      ready,
      none_left c empty,
      rw (empty, to_int_small 0 (omega arith)),
    )
