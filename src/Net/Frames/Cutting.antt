-- ===== src/Net/Frames/Cutting.antt =====
-- Where a beginning of a stream of messages is cut: whole messages, and less than one more.
use lars_study.Prelude.{
  ℕ, ◌≤◌, ◌<◌, ◌≡◌, refl, ap, sym, ◌∙◌, inl, inr, List, [], ◌∷◌, ◌++◌, All, append_assoc,
  append-nil, arith, pos, to_u32, to_u32-lt, to_u32_pos, u32_mod, ltb, Bool-cases, length,
  length-append,
}
use lars_study.Net.Message.{
  Message, msg_len, encode, encode32, decode32, decode32-encode32, length-encode32, encode_split,
  IsSendable, length-encode, stream,
}
use lars_study.Net.Frames.Delivery.{IsPartial}

-- The longer of two beginnings starts with the shorter.
append_split :
    (a b s x : List ℕ)
    → s ++ x ≡ a ++ b
    → length a ≤ length s
    → (r : List ℕ) × (s ≡ a ++ r) × (r ++ x ≡ b)
append_split [] b s x e l = (s, refl, e)
append_split (y ∷ a) b [] x e l = absurd (omega arith)
append_split (y ∷ a) b (z ∷ s) x e l =
    let head : z ≡ y = cc in
    let tail : s ++ x ≡ a ++ b = cc in
    let (r, same, rest) = append_split a b s x tail (omega arith) in (r, cc, rest)

encode32_cancel :
    (m n : ℕ) (x y : List ℕ)
    → m < u32_mod
    → n < u32_mod
    → encode32 m ++ x ≡ encode32 n ++ y
    → (m ≡ n) × (x ≡ y)
encode32_cancel m n x y hm hn e = go (
    append_split (encode32 n) y (encode32 m) x e
      (omega (arith, length-encode32 m, length-encode32 n)))
  where
    go : (r : List ℕ) × (encode32 m ≡ encode32 n ++ r) × (r ++ x ≡ y) → (m ≡ n) × (x ≡ y)
    go ([], same, rest) = (
      sym (decode32-encode32 m hm)
          ∙ ap decode32 (same ∙ append-nil (encode32 n))
          ∙ decode32-encode32 n hn,
      rest,
    )
    go (z ∷ r, same, rest) = absurd (
        omega (
          arith,
          ap length same,
          length-append (encode32 n) (z ∷ r),
          length-encode32 m,
          length-encode32 n,
        ))

-- The beginning `s` of the bytes of `ms`, of which `x` is left.
abbrev pub Cut : List Message → List ℕ → List ℕ → Type 0
Cut ms s x =
    (fs rest : List Message) × (t : List ℕ) × (ms ≡ fs ++ rest)
    × (s ≡ stream fs ++ t)
    × (t ++ x ≡ stream rest)
    × IsPartial t

header_split :
    (f : Message) (s x y : List ℕ)
    → IsSendable f
    → s ++ x ≡ encode f ++ y
    → 8 ≤ length s
    → length s < msg_len f
    → IsPartial s
header_split f s x y h e long short =
    let len_fits : to_u32 (pos (msg_len f)) ≡ msg_len f = to_u32_pos (msg_len f) (omega arith) in
    let hd : List ℕ = encode32 (to_u32 f.id) ++ encode32 (to_u32 (pos (msg_len f))) in
    let (r, same, _) =
      append_split hd (f.body ++ y) s x
        (e ∙ encode_split f y ∙ sym (append_assoc (encode32 (to_u32 f.id)) _ _))
        (omega (
          arith,
          length-append (encode32 (to_u32 f.id)) (encode32 (to_u32 (pos (msg_len f)))),
          length-encode32 (to_u32 f.id),
          length-encode32 (to_u32 (pos (msg_len f))),
        )) in
    inr (
      to_u32 f.id,
      msg_len f,
      r,
      same
          ∙ append_assoc (encode32 (to_u32 f.id)) _ r
          ∙ ap (λ n. encode32 (to_u32 f.id) ++ (encode32 n ++ r)) len_fits,
      to_u32-lt f.id,
      h.size_fits,
      short,
    )

pub cut : (ms : List Message) (s x : List ℕ) → All IsSendable ms → s ++ x ≡ stream ms → Cut ms s x
cut [] s x h e = ([], [], s, refl, refl, e, inl (omega (arith, ap length e, length-append s x)))
cut (f ∷ ms) s x h e = elim (Bool-cases (ltb (length s) 8)) [
  | inl short ↦ ([], f ∷ ms, s, refl, refl, e, inl (ground arith))
  | inr long ↦ elim (Bool-cases (ltb (length s) (msg_len f))) [
    | inl part ↦ (
      [],
      f ∷ ms,
      s,
      refl,
      refl,
      e,
      header_split f s x (stream ms) h.0 e (ground arith) (ground arith),
    )
    | inr whole ↦
        let (r, same, rest) =
          append_split (encode f) (stream ms) s x e (ground (arith, length-encode f)) in
        let (fs, left, t, all, bytes, later, partial) = cut ms r x h.1 rest in
        (
          f ∷ fs,
          left,
          t,
          ap (◌∷◌ f) all,
          same ∙ ap (◌++◌ (encode f)) bytes ∙ sym (append_assoc (encode f) (stream fs) t),
          later,
          partial,
        )
  ]
]

-- Less than a message is no message.
pub partial_stream :
    (f : Message) (fs : List Message) (t : List ℕ)
    → IsSendable f
    → IsPartial t
    → t ≡ stream (f ∷ fs)
    → ⊥
partial_stream f fs t h (inl short) e =
    omega (arith, ap length e, length-append (encode f) (stream fs), length-encode f)
partial_stream f fs t h (inr (id, len, r, begins, id_fits, size_fits, short)) e =
    let (_, tail) =
      encode32_cancel id (to_u32 f.id) _ _ id_fits (to_u32-lt f.id)
        (sym begins ∙ e ∙ encode_split f (stream fs)) in
    let (same, _) =
      encode32_cancel len (to_u32 (pos (msg_len f))) _ _ (omega arith) (to_u32-lt (pos (msg_len f)))
        tail in
    omega (
      arith,
      same,
      to_u32_pos (msg_len f) (omega arith),
      ap length e,
      length-append (encode f) (stream fs),
      length-encode f,
    )
