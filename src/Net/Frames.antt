-- ===== src/Net/Frames.antt =====
-- The loop that tcp_conn::handle_read and tcp_client::handle_read share in shape: cut the bytes that
-- have come in into messages, and hand each to its handler.
pub mod Header
pub mod Handling
pub mod Delivery
pub mod Stale
pub mod Cutting
use lars_study.Prelude.{
  ℕ, zero, suc, ◌+◌, ◌-◌, Bool, true, false, ◌||◌, List, [], ◌∷◌, Option, none, some, ltb,
  if◌then◌else◌, ℤ, pos, negsuc, to_int, natural, ltb_ℤ, Outcome, ok, stop, undefined, out_of_fuel,
  ◌>>=◌,
}
use lars_study.Buffer.Memory.{slice}
use lars_study.Buffer.IoBuf.{IoBuf}
use lars_study.Buffer.Pool.{Pool}
use lars_study.Buffer.ReactorBuf
use lars_study.Buffer.ReactorBuf.{ReactorBuf}
use lars_study.Net.Message.{decode32, message_header_size, message_max_size}

-- A connection as its read loop sees it: `rest` is what its handlers can reach besides the pool. They
-- have the connection as a net_connection, which offers no access to its input.
pub record Inbound (S : Type 0) : Type 0 where
  pub ibuf : ReactorBuf
  pub pool : Pool
  pub rest : S

-- A handler gets the id and the body.
abbrev pub Handler : Type 0 → Type 0
Handler S = ℤ → List ℕ → Pool → S → Outcome (Pool × S)

-- handler_map::get_handler
abbrev pub Handlers : Type 0 → Type 0
Handlers S = ℤ → Option (Handler S)

module _ {S : Type 0} where
  unfoldable pub call : Option (Handler S) → Handler S
  call none id body p s = ok (p, s)
  call (some handler) id body p s = handler id body p s

  -- A complete message of `n` bytes at `base`. A length below the header's would make the body an
  -- array of negative size.
  consume :
      Handlers S
      → (Inbound S → Outcome (Inbound S))
      → Inbound S
      → IoBuf
      → ℕ
      → ℕ
      → Outcome (Inbound S)
  consume hs again i b base n = if ltb n message_header_size then stop undefined else do
    let id = to_int (decode32 (slice b.bytes base 4))
    (p, s) ← call (hs id) id (slice b.bytes (base + 8) (n - 8)) i.pool i.rest
    (ibuf, p') ← ReactorBuf.pop (some b) (pos n) p
    again (record { ibuf = ibuf; pool = p'; rest = s })

  -- One round, with the header read at `base`; `again` is the next round.
  pub frame_step :
      (Inbound S → Outcome (Inbound S))
      → Handlers S
      → (Inbound S → Outcome (Inbound S))
      → Inbound S
      → IoBuf
      → ℕ
      → Outcome (Inbound S)
  frame_step on_error hs again i b base =
      let len = to_int (decode32 (slice b.bytes (base + 4) 4)) in
      if ltb_ℤ (to_int b.length) (pos message_header_size)
      then ok i
      else if ltb_ℤ (pos message_max_size) len || ltb_ℤ len (pos 0)
      then on_error i
      else if ltb_ℤ (to_int b.length) len
      then ok i
      else consume hs again i b base (natural len)

  next_round :
      (Inbound S → Outcome (Inbound S))
      → Handlers S
      → (Inbound S → Outcome (Inbound S))
      → (IoBuf → ℕ)
      → Inbound S
      → ReactorBuf
      → Outcome (Inbound S)
  next_round on_error hs again at i none = ok i
  next_round on_error hs again at i (some b) = frame_step on_error hs again i b (at b)

  -- `while (m_ibuf.length() >= MESSAGE_HEADER_SIZE)`. `at` is where a round reads its header, and
  -- `on_error` what the loop does before it breaks off.
  pub frame_loop :
      ℕ
      → (IoBuf → ℕ)
      → (Inbound S → Outcome (Inbound S))
      → Handlers S
      → Inbound S
      → Outcome (Inbound S)
  frame_loop zero at on_error hs i = stop out_of_fuel
  frame_loop (suc fuel) at on_error hs i =
      next_round on_error hs (frame_loop fuel at on_error hs) at i i.ibuf
