-- ===== src/Agent/Servers/Examples.antt =====
-- The three servers of an agent that knows nothing yet.
use lars_study.Prelude.{ℕ, ◌≡◌, true, none, List, [], ◌∷◌, ◌++◌, arith, pos, ok}
use lars_study.Net.Message.{encode}
use lars_study.Net.Handlers.{no_handlers}
use lars_study.Net.Udp.{UdpServer, datagram, do_read}
use lars_study.Agent.LoadBalance.{HostInfo, host_info, ret_noexist}
use lars_study.Agent.RouteLb.{RouteLb, get_host}
use lars_study.Agent.RouteLb.Answers.{here, get_host_never}
use lars_study.Agent.UdpServer.{GetHostRequest, GetHostResponse, id_get_host_request}
use lars_study.Agent.Servers.{
  RouteLbs, create_route_lb, set_route_lb, start_udp_servers, handlers_of,
}
use lars_study.Agent.Servers.Sharing.{reply_to, do_read-start_udp_servers}

-- One byte for each field of a request; the bytes of an answer are those of the text "no".
abbrev parse : List ℕ → GetHostRequest
parse (seq ∷ modid ∷ cmdid ∷ l) = record { seq = seq; modid = pos modid; cmdid = pos cmdid }
parse l = record { seq = 0; modid = pos 0; cmdid = pos 0 }

abbrev serialize : GetHostResponse → List ℕ
serialize r = 110 ∷ 111 ∷ []

abbrev unknown : HostInfo
unknown = host_info 0 0 0

abbrev agent : UdpServer RouteLbs
agent = record { peer_addr = 0; sent = []; state = create_route_lb }

nothing_yet :
    (lb : RouteLb) × (get_host (pos 0) (pos 1) (pos 2) unknown (create_route_lb 1)
      ≡ ok (ret_noexist, unknown, lb))
unfolding create_route_lb
nothing_yet = get_host_never (λ k. none) (pos 0) (pos 1) (pos 2) unknown here

-- The server 1 registers after the two others.
do_read-start_udp_servers_example :
    do_read
      (handlers_of true parse serialize
        (pos 0)
        unknown
        (start_udp_servers ((2 ∷ 0 ∷ []) ++ 1 ∷ []) no_handlers))
      (datagram 9 (encode (record { id = id_get_host_request; body = 7 ∷ 1 ∷ 2 ∷ [] })) ∷ [])
      (λ i. 0)
      agent
    ≡ ok (record {
      peer_addr = 9;
      sent =
          []
          ++ (
            9,
            encode (
                reply_to parse serialize
                  (pos 0)
                  unknown
                  (parse (7 ∷ 1 ∷ 2 ∷ []))
                  ret_noexist
                  unknown),
          )
            ∷ [];
      state = set_route_lb create_route_lb 1 nothing_yet.0;
    })
do_read-start_udp_servers_example =
    do_read-start_udp_servers parse serialize (pos 0) unknown (2 ∷ 0 ∷ []) 1 no_handlers
      (7 ∷ 1 ∷ 2 ∷ []) 9 (λ i. 0) agent ret_noexist unknown nothing_yet.0 nothing_yet.1
      (omega arith) (omega arith)
