-- ===== src/Net/Udp/Client/Examples.antt =====
-- A client at address 9 asks, and the server at address 5 answers with the question's body twice.
use lars_study.Prelude.{ℕ, ◌≡◌, refl, true, List, [], ◌∷◌, ◌++◌, some, pos, arith, ok}
use lars_study.Net.Message.{Message}
use lars_study.Net.Udp
use lars_study.Net.Udp.{UdpServer, Handlers, datagram}
use lars_study.Net.Udp.Client.{do_read, send, answering, do_read-answering}

abbrev ask : Message
ask = record { id = pos 4; body = 10 ∷ 11 ∷ [] }

abbrev twice : List ℕ → Message
twice body = record { id = pos 5; body = body ++ body }

abbrev end : ℕ → List ℕ → UdpServer (List ℕ)
end peer notes = record { peer_addr = peer; sent = []; state = notes }

abbrev notes : Handlers (UdpServer (List ℕ))
notes id = some (λ msgid body s. ok (record s { state = s.state ++ body }))

abbrev answers : Handlers (UdpServer (List ℕ))
answers id = some (answering twice)

do_read-answering_example :
    (asked : List ℕ) × (answered : List ℕ) × (send true (pos 4) (10 ∷ 11 ∷ []) (end 5 [])
      ≡ ok (pos 10, record (end 5 []) { sent = (5, asked) ∷ [] }))
    × (Udp.do_read answers (datagram 9 asked ∷ []) (λ i. 255) (end 0 [])
        ≡ ok (record (end 9 []) { sent = (9, answered) ∷ [] }))
    × (do_read notes (datagram 5 answered ∷ []) (λ i. 255) (end 5 [])
        ≡ ok (end 5 (10 ∷ 11 ∷ 10 ∷ 11 ∷ [])))
do_read-answering_example =
    do_read-answering twice answers notes ask 9 5 (λ i. 255) (λ i. 255) (end 0 []) (end 5 [])
      (end 5 []) refl (omega arith) (omega arith) (omega arith) (omega arith)
