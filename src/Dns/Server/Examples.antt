-- ===== src/Dns/Server/Examples.antt =====
-- A client that asks, and one that has just connected.
use lars_study.Prelude.{
  ℕ, ◌≡◌, refl, List, [], ◌∷◌, some, pos, map, arith, none, false, true, natural, length, Yields,
  sym, append-nil,
}
use lars_study.Dns.Key.{mod_key}
use lars_study.Dns.Subscribe.{GetRouteResponse, response}
use lars_study.Dns.Route.{RouteMap, get_hosts}
use lars_study.Buffer.Pool.{buf_pool}
use lars_study.Buffer.Pool.Init.{buf_pool-IsValid}
use lars_study.Buffer.Pool.Stock.{IsStocked, buf_pool-IsStocked}
use lars_study.Buffer.ReactorBuf.{Ready, bytes_of}
use lars_study.Buffer.InputBuf.{got}
use lars_study.Net.Message.{Message, encode, length-encode}
use lars_study.Net.Frames.{Inbound}
use lars_study.Net.EventLoop.{event_loop}
use lars_study.Net.TcpConn.{Conn, connected, handle_read}
use lars_study.Net.TcpConn.Trace.{InOrder}
use lars_study.Dns.Server.{GetRouteRequest, get_route, dns_handlers}
use lars_study.Dns.Server.Serving.{reply, handle_read-get_route}
use lars_study.Dns.Server.Routing.{get_route_agrees}

-- One byte for each field.
abbrev parse : List ℕ → GetRouteRequest
parse (modid ∷ cmdid ∷ l) = record { modid = pos modid; cmdid = pos cmdid }
parse l = record { modid = pos 0; cmdid = pos 0 }

-- The bytes count the hosts only.
abbrev serialize : GetRouteResponse → List ℕ
serialize r = map (λ h. 1) r.host

-- One host, 127.0.0.1:7777, for every module.
abbrev everywhere : RouteMap
everywhere k = some (9151314447111822945 ∷ [])

get_route_agrees_example :
    get_route parse serialize everywhere (1 ∷ 2 ∷ [])
    ≡ (pos 2, serialize (response (get_hosts everywhere) (mod_key (pos 1) (pos 2))))
get_route_agrees_example =
    get_route_agrees parse serialize everywhere (1 ∷ 2 ∷ []) (pos 1) 2 refl (omega arith)
      (omega arith)

-- A new connection, and a request that comes on it.
abbrev new_conn : Conn
new_conn = record {
  fd = 5;
  state = connected;
  obuf = none;
  loop = event_loop;
  conns = λ i. false;
  closed = [];
  wire = [];
}

abbrev inbound : Inbound Conn
inbound = record { ibuf = none; pool = buf_pool; rest = new_conn }

new_conn-InOrder : InOrder ([], inbound)
new_conn-InOrder = record {
  pool_valid = buf_pool-IsValid;
  input = tt;
  output = tt;
  is_open = refl;
  bytes = refl;
  armed = λ l. absurd (omega arith);
}

abbrev request : Message
request = record { id = pos 1; body = 1 ∷ 2 ∷ [] }

-- The bytes name the module only.
abbrev module_named : GetRouteResponse → List ℕ
module_named r = natural r.modid ∷ natural r.cmdid ∷ []

handle_read-get_route_example :
    Yields
      (handle_read
        (some (pos (length (encode request))))
        (got (encode request))
        (dns_handlers parse module_named true everywhere)
        inbound)
      λ j.
        InOrder (reply parse module_named true everywhere (1 ∷ 2 ∷ []) ∷ [], j)
        × Ready j.ibuf
        × IsStocked 14 j.pool
        × (bytes_of j.ibuf ≡ [])
unfolding get_route
handle_read-get_route_example =
    handle_read-get_route parse module_named true everywhere [] request [] 14 inbound
      (got (encode request)) (encode request) new_conn-InOrder tt buf_pool-IsStocked
      (record { id_fits = omega arith; size_fits = omega arith }) refl (omega arith) (omega arith)
      refl (omega (arith, length-encode request)) (sym (append-nil (encode request)))
      (omega (arith, length-encode request))
