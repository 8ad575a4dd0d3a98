-- ===== src/Agent/DnsClient/Examples.antt =====
-- A load balancer that pulls on a new connection.
use lars_study.Prelude.{
  ℕ, ◌≡◌, refl, true, List, [], ◌∷◌, none, some, pos, natural, arith, sym, append-nil, length, map,
  Yields,
}
use lars_study.Buffer.Pool
use lars_study.Buffer.Pool.{buf_pool}
use lars_study.Buffer.Pool.Init.{buf_pool-IsValid}
use lars_study.Buffer.Pool.Stock.{IsStocked, buf_pool-IsStocked}
use lars_study.Buffer.ReactorBuf.{Ready, bytes_of}
use lars_study.Buffer.InputBuf.{got}
use lars_study.Net.Message.{encode, length-encode}
use lars_study.Net.Frames.{Inbound}
use lars_study.Net.EventLoop.{event_loop}
use lars_study.Net.TcpConn.{Conn, connected, handle_read}
use lars_study.Dns.Subscribe.{GetRouteResponse}
use lars_study.Dns.Route.{RouteMap}
use lars_study.Dns.Server.{GetRouteRequest, dns_handlers}
use lars_study.Agent.LoadBalance.{LoadBalance, load_balance}
use lars_study.Agent.UdpServer.{GetHostRequest}
use lars_study.Agent.DnsClient.{pull_request}
use lars_study.Agent.DnsClient.Unanswered.{pulling, handle_read-pull_request}

abbrev parse : List ℕ → GetRouteRequest
parse (modid ∷ cmdid ∷ l) = record { modid = pos modid; cmdid = pos cmdid }
parse l = record { modid = pos 0; cmdid = pos 0 }

abbrev serialize : GetRouteResponse → List ℕ
serialize r = map (λ h. 1) r.host

abbrev everywhere : RouteMap
everywhere k = some (9151314447111822945 ∷ [])

abbrev asked : GetHostRequest → List ℕ
asked r = natural r.modid ∷ natural r.cmdid ∷ []

abbrev lb : LoadBalance
lb = load_balance (pos 0) (pos 1) (pos 2)

abbrev inbound : Inbound Conn
inbound = record {
  ibuf = none;
  pool = buf_pool;
  rest = record {
    fd = 5;
    state = connected;
    obuf = none;
    loop = event_loop;
    conns = λ i. true;
    closed = [];
    wire = [];
  };
}

handle_read-pull_request_example :
    Yields
      (handle_read
        (some (pos (length (encode (pulling asked lb)))))
        (got (encode (pulling asked lb)))
        (dns_handlers parse serialize true everywhere)
        inbound)
      λ j.
        (j.rest ≡ inbound.rest)
        × Pool.IsValid j.pool
        × IsStocked 18 j.pool
        × Ready j.ibuf
        × (bytes_of j.ibuf ≡ [])
unfolding pull_request
handle_read-pull_request_example =
    handle_read-pull_request parse serialize true everywhere asked lb [] 18 inbound
      (got (encode (pulling asked lb))) (encode (pulling asked lb)) tt buf_pool-IsValid
      buf_pool-IsStocked (record { id_fits = omega arith; size_fits = omega arith }) (omega arith)
      refl (omega (arith, length-encode (pulling asked lb)))
      (sym (append-nil (encode (pulling asked lb))))
      (omega (arith, length-encode (pulling asked lb)))
