-- ===== src/Dns/Server.antt =====
-- lars_dns/src/dns_server.cc: the answer to a GetRouteRequest, and the subscription of a new connection.
pub mod Routing
pub mod Asking
pub mod Serving
pub mod Main
mod Examples
use lars_study.Prelude.{Bool, ok, ◌>>=◌, ℕ, ◌+◌, ◌*◌, List, map, ℤ, pos, u32_mod}
use lars_study.Net.Handlers.{HandlerMap, no_handlers, register_handler}
use lars_study.Net.Frames.{Handler}
use lars_study.Net.TcpConn.{Conn, send}
use lars_study.Dns.Subscribe.{SubscribeList, GetRouteResponse, host_info, subscribe}
use lars_study.Dns.Route.{RouteMap, get_hosts}

-- lars::GetRouteRequest
pub record GetRouteRequest : Type 0 where
  pub modid : ℤ
  pub cmdid : ℤ

-- lars::MessageId::ID_GetRouteRequest
abbrev pub id_get_route_request : ℤ
id_get_route_request = pos 1

-- lars::MessageId::ID_GetRouteResponse
abbrev pub id_get_route_response : ℤ
id_get_route_response = pos 2

-- dns_server::on_build
pub on_build : SubscribeList → ℕ → SubscribeList
on_build s fd = let key = 1 * u32_mod + 2 in subscribe s fd key

-- protobuf's ParseFromArray and SerializeAsString are arguments.
module _ (parse : List ℕ → GetRouteRequest) (serialize : GetRouteResponse → List ℕ) where
  -- The id and the bytes of the message that is sent; `m` is the map that is served.
  pub get_route : RouteMap → List ℕ → ℤ × List ℕ
  get_route m data_bytes =
      let req = parse data_bytes in
      let hosts = get_hosts m req.modid req.cmdid in
      (
        id_get_route_response,
        serialize (record { modid = req.modid; cmdid = req.cmdid; host = map host_info hosts }),
      )

  -- get_route as the handler of a connection. `ctl` is what epoll_ctl returns.
  pub answer_route : Bool → RouteMap → Handler Conn
  answer_route ctl m msgid data_bytes p c =
      let (id, res_str) = get_route m data_bytes in
      do (ret, p', c') ← send ctl id res_str p c; ok (p', c')

  -- The handlers that the constructor of dns_server leaves.
  pub dns_handlers : Bool → RouteMap → HandlerMap (Handler Conn)
  dns_handlers ctl m = register_handler id_get_route_request (answer_route ctl m) no_handlers
