-- ===== src/Net/Frames/Header.antt =====
-- Reading a message's header out of the bytes that have come in.
use lars_study.Prelude.{ℕ, ◌+◌, ◌<◌, ◌≡◌, ap, ◌∙◌, List, ◌++◌, arith, length, u32_mod}
use lars_study.Buffer.Memory.{Memory, slice, slice-prefix}
use lars_study.Net.Message.{encode32, decode32, decode32-encode32, length-encode32}

module _ (m : Memory) (base n id len : ℕ) (r : List ℕ) (id_fits : id < u32_mod)
    (len_fits : len < u32_mod) (begins : slice m base n ≡ encode32 id ++ (encode32 len ++ r)) where
  at_four :
      (slice m base 4 ≡ encode32 id)
      × (slice m (base + 4) (length (encode32 len ++ r)) ≡ encode32 len ++ r)
      × (4 + length (encode32 len ++ r) ≡ n)
  at_four = rw length-encode32 at (slice-prefix m base n (encode32 id) (encode32 len ++ r) begins)

  at_eight :
      (slice m (base + 4) 4 ≡ encode32 len)
      × (slice m (base + 4 + 4) (length r) ≡ r)
      × (4 + length r ≡ length (encode32 len ++ r))
  at_eight =
      rw length-encode32 at
        (slice-prefix m (base + 4) (length (encode32 len ++ r)) (encode32 len) r at_four.1)

  -- The two fields, the bytes behind them, and the length of the whole.
  pub header_lem :
      (decode32 (slice m base 4) ≡ id)
      × (decode32 (slice m (base + 4) 4) ≡ len)
      × (slice m (base + 8) (length r) ≡ r)
      × (8 + length r ≡ n)
  header_lem =
      let e : base + 4 + 4 ≡ base + 8 = omega arith in
      (
        ap decode32 at_four.0 ∙ decode32-encode32 id id_fits,
        ap decode32 at_eight.0 ∙ decode32-encode32 len len_fits,
        rw e at at_eight.1,
        omega (arith, at_four.2, at_eight.2),
      )
