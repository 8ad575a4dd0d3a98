-- ===== src/Net/Message.antt =====
-- struct message (lars_reactor/include/message.h): the header of eight bytes that precedes each
-- body, two `int`s in the byte order of the machine, least significant byte first.
use lars_study.Prelude.{
  ℕ, ◌+◌, ◌*◌, ◌/◌, ◌%◌, ◌<◌, ◌≡◌, refl, List, [], ◌∷◌, ◌++◌, arith, ℤ, pos, to_u32, length,
  u32_mod, IsInt, ◌≤◌, append_assoc, append-nil, length-append, ap, sym, ◌∙◌,
}

abbrev pub message_header_size : ℕ
message_header_size = 8

abbrev pub message_max_size : ℕ
message_max_size = 65527

-- The four bytes of an `int`, and back.
pub encode32 : ℕ → List ℕ
encode32 n = n % 256 ∷ n / 256 % 256 ∷ n / 65536 % 256 ∷ n / 16777216 % 256 ∷ []

pub decode32 : List ℕ → ℕ
decode32 (a ∷ b ∷ c ∷ d ∷ _) = a + 256 * b + 65536 * c + 16777216 * d
decode32 _ = 0

pub record Message : Type 0 where
  pub id : ℤ
  pub body : List ℕ

-- The value of the header's `len`: header and body.
abbrev pub msg_len : Message → ℕ
msg_len f = message_header_size + length f.body

pub encode_header : ℤ → ℕ → List ℕ
encode_header id len = encode32 (to_u32 id) ++ encode32 (to_u32 (pos len))

pub encode : Message → List ℕ
encode f = encode_header f.id (msg_len f) ++ f.body

pub decode32-encode32 : (n : ℕ) → n < u32_mod → decode32 (encode32 n) ≡ n
unfolding decode32 encode32
decode32-encode32 n h = omega arith

pub length-encode32 : (n : ℕ) → length (encode32 n) ≡ 4
unfolding encode32
length-encode32 n = refl

-- A message that the readers accept.
pub record IsSendable (f : Message) : Type 0 where
  pub id_fits : IsInt f.id
  pub size_fits : msg_len f ≤ message_max_size

pub encode_split :
    (f : Message) (t : List ℕ)
    → encode f ++ t
      ≡ encode32 (to_u32 f.id) ++ (encode32 (to_u32 (pos (msg_len f))) ++ (f.body ++ t))
unfolding encode encode_header
encode_split f t = simp append_assoc

pub encode_header_split :
    (id : ℤ) (len : ℕ) (t : List ℕ)
    → encode_header id len ++ t ≡ encode32 (to_u32 id) ++ (encode32 (to_u32 (pos len)) ++ t)
unfolding encode_header
encode_header_split id len t = simp append_assoc

pub length-encode : (f : Message) → length (encode f) ≡ msg_len f
unfolding encode encode_header encode32
length-encode f = omega arith

pub length-encode_header : (id : ℤ) (len : ℕ) → length (encode_header id len) ≡ 8
unfolding encode_header encode32
length-encode_header id len = refl

pub encode_lem : (f : Message) → encode f ≡ encode_header f.id (msg_len f) ++ f.body
unfolding encode
encode_lem f = refl

-- The bytes of messages, one behind the other.
abbrev pub stream : List Message → List ℕ
stream [] = []
stream (f ∷ fs) = encode f ++ stream fs

pub stream-append :
    (fs : List Message) (f : Message) → stream (fs ++ f ∷ []) ≡ stream fs ++ encode f
stream-append [] f = append-nil (encode f)
stream-append (g ∷ fs) f =
    ap (◌++◌ (encode g)) (stream-append fs f) ∙ sym (append_assoc (encode g) (stream fs) (encode f))

-- Each message has at least the bytes of its header.
pub length-stream : (fs : List Message) → 8 * length fs ≤ length (stream fs)
length-stream [] = omega arith
length-stream (f ∷ fs) =
    omega (arith, length-stream fs, length-append (encode f) (stream fs), length-encode f)
