-- ===== src/Net/Udp/Receiving/Examples.antt =====
-- Two questions from the addresses 9 and 8, with a datagram that claims a length of 100 in between.
use lars_study.Prelude.{
  take, take_all, length-append, ℕ, ◌≡◌, List, [], ◌∷◌, ◌++◌, some, map, pos, arith, ok,
}
use lars_study.Net.Message.{length-encode_header, encode_header, Message}
use lars_study.Net.Udp.{buf_size, UdpServer, Handlers, do_read}
use lars_study.Net.Udp.Receiving.{
  Arrival, message_from, corrupt_from, interruption, recv_result, handle_arrivals, Arrives,
  do_read-handle_arrivals,
}

abbrev question : List ℕ → Message
question body = record { id = pos 4; body = body }

abbrev end : ℕ → List ℕ → UdpServer (List ℕ)
end from notes = record { peer_addr = from; sent = []; state = notes }

abbrev notes : Handlers (UdpServer (List ℕ))
notes id = some (λ msgid body s. ok (record s { state = s.state ++ body }))

abbrev arrivals : List Arrival
arrivals =
    message_from 9 (question (10 ∷ 11 ∷ []))
    ∷ interruption
    ∷ corrupt_from 7 (encode_header (pos 4) 100 ++ 12 ∷ [])
    ∷ message_from 8 (question (13 ∷ []))
    ∷ []

cut : take buf_size (encode_header (pos 4) 100 ++ 12 ∷ []) ≡ encode_header (pos 4) 100 ++ 12 ∷ []
cut = take_all buf_size (encode_header (pos 4) 100 ++ 12 ∷ []) (
    omega (
      arith,
      length-append (encode_header (pos 4) 100) (12 ∷ []),
      length-encode_header (pos 4) 100,
    ))

do_read-handle_arrivals_example :
    do_read notes (map recv_result arrivals) (λ i. 255) (end 5 []) ≡ ok (end 8 (10 ∷ 11 ∷ 13 ∷ []))
unfolding handle_arrivals Arrives
do_read-handle_arrivals_example =
    do_read-handle_arrivals notes arrivals (λ i. 255) (end 5 [])
      (
        (omega arith, omega arith),
        (
          tt,
          (
            (pos 4, 100, 12 ∷ [], cut, omega arith, λ e. omega (arith, e)),
            ((omega arith, omega arith), tt),
          ),
        ),
      )
