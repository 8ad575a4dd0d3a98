-- ===== src/Buffer/InputBuf/Unannounced.antt =====
-- Bytes that come after FIONREAD announced none: the read asks for 4096 bytes, whatever room there is.
use lars_study.Prelude.{
  ℕ, suc, ◌+◌, ◌-◌, ◌≤◌, ◌<◌, ◌≡◌, ◌⊎◌, inl, inr, refl, ap, sym, ◌∙◌, true, List, [], ◌∷◌, ◌++◌,
  append-nil, Option, none, some, arith, pos, length, int_bound, eq→==, ne→==, le→ltb, to_int_small,
  sub64_small, ok, stop, undefined, Returns, Returns-bind, Returns-Spares, Yields, subst,
}
use lars_study.Buffer.IoBuf.{IoBuf, contents}
use lars_study.Buffer.IoBuf.Contents.{empty_contents}
use lars_study.Buffer.Pool
use lars_study.Buffer.Pool.{Pool, alloc_buf}
use lars_study.Buffer.Pool.Stock.{IsStocked}
use lars_study.Buffer.Pool.Alloc.{Allocates, alloc_buf-Returns, class_le, class_ge}
use lars_study.Buffer.ReactorBuf.{ReactorBuf, Ready, IsReady, bytes_of, ensure, grow, append}
use lars_study.Buffer.ReactorBuf.Write.{append-Returns, append_past}
use lars_study.Buffer.InputBuf.{
  ReadResult, got, failed, interrupted, answer, received, read_loop, read_grown, read_ensured,
  read_data,
}
use lars_study.Buffer.InputBuf.Reading.{Reads, Announced, read_data-Returns}
use lars_study.Buffer.InputBuf.Stock.{read_data-Spares}

module _ (b : IoBuf) (p : Pool) (rb : IsReady b) where
  -- Nothing is announced: the block stays.
  stays : grow b (pos 0) p ≡ ok (true, b, p)
  unfolding grow
  stays = rw (
    sub64_small b.capacity b.length (omega arith) (omega arith),
    to_int_small (b.capacity - b.length) (omega arith),
    le→ltb (b.capacity - b.length) 0 (omega arith),
  )

  received_unannounced :
      (m : ReactorBuf) (bs : List ℕ)
      → Pool.IsValid p
      → contents b ≡ bytes_of m
      → b.length + length bs ≤ b.capacity
      → Returns (received b (pos 0) p bs) (Reads m 0 (some bs))
  unfolding received
  received_unannounced m [] v same fits =
      (v, rb, inl ([], refl, refl, same ∙ sym (append-nil (bytes_of m))))
  received_unannounced m (x ∷ bs) v same fits = rw (ne→== (suc (length bs)) 0 (omega arith)) (
      Returns-bind (append b (x ∷ bs)) _ _ _ (append-Returns b (x ∷ bs) rb fits)
        λ c a. (v, a.1, inl (x ∷ bs, refl, refl, a.0 ∙ ap (λ s. s ++ x ∷ bs) same)))

  read_loop_unannounced :
      (m : ReactorBuf) (r : ReadResult) (bs : List ℕ)
      → answer r ≡ some bs
      → Pool.IsValid p
      → contents b ≡ bytes_of m
      → b.length + length bs ≤ b.capacity
      → Returns (read_loop b (pos 0) p r) (Reads m 0 (some bs))
  unfolding read_loop
  read_loop_unannounced m (got cs) bs e v same fits =
      let f : cs ≡ bs = cc in
      subst (λ x. Returns (received b (pos 0) p x) (Reads m 0 (some bs))) (sym f)
        (received_unannounced m bs v same fits)
  read_loop_unannounced m failed bs e v same fits = absurd (cc)
  read_loop_unannounced m (interrupted r) bs e v same fits =
      read_loop_unannounced m r bs e v same fits

  ensured_unannounced :
      (m : ReactorBuf) (r : ReadResult) (bs : List ℕ)
      → answer r ≡ some bs
      → Pool.IsValid p
      → contents b ≡ bytes_of m
      → b.length + length bs ≤ b.capacity
      → Returns (read_ensured (pos 0) r (some b, p)) (Reads m 0 (some bs))
  unfolding read_ensured read_grown
  ensured_unannounced m r bs e v same fits =
      rw (eq→== b.head 0 rb.at_start, stays) (read_loop_unannounced m r bs e v same fits)

  received_overruns :
      (bs : List ℕ) → b.capacity < b.length + length bs → received b (pos 0) p bs ≡ stop undefined
  unfolding received
  received_overruns bs past = rw (ne→== (length bs) 0 (omega arith), append_past b bs past)

  read_loop_overruns :
      (r : ReadResult) (bs : List ℕ)
      → answer r ≡ some bs
      → b.capacity < b.length + length bs
      → read_loop b (pos 0) p r ≡ stop undefined
  unfolding read_loop
  read_loop_overruns (got cs) bs e past =
      let f : cs ≡ bs = cc in ap (received b (pos 0) p) f ∙ received_overruns bs past
  read_loop_overruns failed bs e past = absurd (cc)
  read_loop_overruns (interrupted r) bs e past = read_loop_overruns r bs e past

  -- Where a block that is in order has less room than the bytes that come after FIONREAD announced
  -- none, the read, however often it is interrupted, writes past the end of the block. At most 4096
  -- bytes come.
  pub read_data_overruns :
      (r : ReadResult) (bs : List ℕ)
      → answer r ≡ some bs
      → length bs ≤ 4096
      → b.capacity < b.length + length bs
      → read_data (some b) (some (pos 0)) r p ≡ stop undefined
  unfolding read_data ensure read_ensured read_grown
  read_data_overruns r bs e some_come past =
      rw (eq→== b.head 0 rb.at_start, stays) (read_loop_overruns r bs e past)

-- What the kernel may hand over: what it announced, the end of the stream, or, where it announced
-- nothing, as many bytes as the block has room for; a new block has 4096.
abbrev pub Fits : ReactorBuf → ℕ → Option (List ℕ) → Type 0
Fits m n none = Unit
Fits none n (some bs) = Announced n (some bs) ⊎ ((n ≡ 0) × (length bs ≤ 4096))
Fits (some b) n (some bs) = Announced n (some bs) ⊎ ((n ≡ 0) × (b.length + length bs ≤ b.capacity))

module _ (n : ℕ) (r : ReadResult) (n_fits : n < int_bound) where
  -- A new block.
  fresh_unannounced :
      (bs : List ℕ) (p : Pool)
      → answer r ≡ some bs
      → length bs ≤ 4096
      → Pool.IsValid p
      → Returns (read_data none (some (pos 0)) r p) (Reads none 0 (some bs))
  unfolding read_data ensure
  fresh_unannounced bs p e few v =
      Returns-bind (alloc_buf p (pos 0)) _ _ _ (alloc_buf-Returns p 0 v) allocated
    where
      allocated :
          (q : ReactorBuf × Pool)
          → Allocates 0 p q
          → Returns (read_ensured (pos 0) r q) (Reads none 0 (some bs))
      allocated (none, q) a = absurd (omega (arith, a.0))
      allocated (some b, q) a =
          let rb : IsReady b = record {
            valid = omega (arith, class_le b.capacity a.1);
            class = a.1;
            at_start = a.3;
          } in
          ensured_unannounced b q rb none r bs e a.4 (empty_contents b a.2)
            (omega (arith, class_ge b.capacity a.1))

  held_unannounced :
      (b : IoBuf) (bs : List ℕ) (p : Pool)
      → answer r ≡ some bs
      → b.length + length bs ≤ b.capacity
      → IsReady b
      → Pool.IsValid p
      → Returns (read_data (some b) (some (pos 0)) r p) (Reads (some b) 0 (some bs))
  unfolding read_data ensure
  held_unannounced b bs p e fits rb v = ensured_unannounced b p rb (some b) r bs e v refl fits

  fitting :
      (m : ReactorBuf) (p : Pool) (a : Option (List ℕ))
      → answer r ≡ a
      → Fits m n a
      → Ready m
      → Pool.IsValid p
      → Returns (read_data m (some (pos n)) r p) (Reads m n a)
  fitting m p none e k rb v =
      subst (λ a. Returns (read_data m (some (pos n)) r p) (Reads m n a)) e
        (read_data-Returns n r n_fits (subst (Announced n) (sym e) tt) m p rb v)
  fitting none p (some bs) e (inl k) rb v =
      subst (λ a. Returns (read_data none (some (pos n)) r p) (Reads none n a)) e
        (read_data-Returns n r n_fits (subst (Announced n) (sym e) k) none p rb v)
  fitting none p (some bs) e (inr (z, few)) rb v =
      subst (λ k. Returns (read_data none (some (pos k)) r p) (Reads none k (some bs))) (sym z)
        (fresh_unannounced bs p e few v)
  fitting (some b) p (some bs) e (inl k) rb v =
      subst (λ a. Returns (read_data (some b) (some (pos n)) r p) (Reads (some b) n a)) e
        (read_data-Returns n r n_fits (subst (Announced n) (sym e) k) (some b) p rb v)
  fitting (some b) p (some bs) e (inr (z, fits)) rb v =
      subst (λ k. Returns (read_data (some b) (some (pos k)) r p) (Reads (some b) k (some bs)))
        (sym z) (held_unannounced b bs p e fits rb v)

-- With a buffer in order, a well-formed pool that has two free buffers in each class, and a kernel that
-- announces less than 2^31 bytes and hands over what it announced, or none at the end of the stream, or,
-- where it announced none, no more than the block has room for: a read returns, however often it is
-- interrupted, and writes nothing outside the block. It appends what came in, or reports -1 and keeps
-- what waited, and that only on an error or where the block that is wanted is past the largest class.
-- Each class loses two buffers at most.
pub read_data-Appends :
    (m : ReactorBuf) (n : ℕ) (r : ReadResult) (p : Pool) (stock : ℕ)
    → n < int_bound
    → Fits m n (answer r)
    → Ready m
    → Pool.IsValid p
    → IsStocked (suc (suc stock)) p
    → Yields (read_data m (some (pos n)) r p) (λ q. Reads m n (answer r) q × IsStocked stock q.2)
read_data-Appends m n r p stock h k rb v s =
    Returns-Spares (read_data m (some (pos n)) r p) (Reads m n (answer r)) _
      (fitting n r h m p (answer r) refl k rb v) (read_data-Spares stock m (some (pos n)) r p s)
