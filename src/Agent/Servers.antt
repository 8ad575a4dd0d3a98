-- ===== src/Agent/Servers.antt =====
-- The three UDP servers of the agent (lars_agent/src/agent_udp_server.cc) and the load balancers that
-- they are meant to have (lars_agent/src/agent_server.cc). All servers of the process look their handlers
-- up in its one handler_map.
pub mod Sharing
pub mod Opening
mod Examples
use lars_study.Prelude.{
  ℕ, ◌+◌, ◌%◌, to_u32, Bool, true, List, [], ◌∷◌, Option, none, some, ◌==◌, if◌then◌else◌, ℤ,
  Outcome, ok, ◌>>=◌,
}
use lars_study.Net.Handlers.{HandlerMap, register_handler, get_handler}
use lars_study.Config.Database.{to_short}
use lars_study.Net.EventLoop.{EventLoop, event_loop}
use lars_study.Net.Udp.Opening.{udp_server}
use lars_study.Net.Udp.{UdpServer, Handlers, send}
use lars_study.Agent.LoadBalance.{HostInfo}
use lars_study.Agent.RouteLb.{RouteLb}
use lars_study.Agent.UdpServer.{
  GetHostRequest, GetHostResponse, id_get_host_request, get_host_handler,
}

-- `g_route_lbs`; the source has three.
abbrev pub RouteLbs : Type 0
RouteLbs = ℕ → RouteLb

-- create_route_lb
pub create_route_lb : RouteLbs
create_route_lb i k = none

abbrev pub set_route_lb : RouteLbs → ℕ → RouteLb → RouteLbs
set_route_lb lbs i lb j = if j == i then lb else lbs j

-- The member function that is bound as the callback of a socket.
pub data Callback : Type 0 where
  do_read : Callback

-- What `std::bind` makes: get_host_handler on the load balancers of one server.
pub data Bound : Type 0 where
  get_host_of : ℕ → Bound

-- What run_udp_server does to the handler_map, for the server `i`.
pub run_udp_server : ℕ → HandlerMap Bound → HandlerMap Bound
run_udp_server i m = register_handler id_get_host_request (get_host_of i) m

-- start_UDP_servers. Each server runs in a thread; `order` is the order in which they register.
pub start_udp_servers : List ℕ → HandlerMap Bound → HandlerMap Bound
unfolding run_udp_server
start_udp_servers [] m = m
start_udp_servers (i ∷ order) m = start_udp_servers order (run_udp_server i m)

-- What the kernel answers to the constructors of the servers: to `socket` for the server `i`, to `bind` for
-- a port, and to `signal` and `epoll_ctl`.
pub record Kernel : Type 0 where
  pub socket : ℕ → Option ℕ
  pub bound : ℕ → Bool
  pub hup : Bool
  pub pipe : Bool
  pub ctl : Bool

-- The server that run_udp_server makes, on a loop of its own; `port` is a `short`. The process ends where
-- the kernel refuses one of the calls.
pub open_udp_server : Kernel → ℕ → Outcome (ℕ × EventLoop Callback)
open_udp_server kernel i =
    let port = to_short (i + 8888) in
    udp_server (kernel.socket i) kernel.hup kernel.pipe (kernel.bound (to_u32 port % 65536))
      kernel.ctl do_read event_loop

-- start_UDP_servers with the sockets. `order` is the order in which the servers register, each once its
-- socket is open.
pub serve_udp : Kernel → List ℕ → HandlerMap Bound → Outcome (HandlerMap Bound)
unfolding open_udp_server run_udp_server
serve_udp kernel [] m = ok m
serve_udp kernel (i ∷ order) m = do
  opened ← open_udp_server kernel i
  serve_udp kernel order (run_udp_server i m)

module _ (taken : Bool) (parse : List ℕ → GetHostRequest) (serialize : GetHostResponse → List ℕ)
    (left_over : ℤ) (h_info : HostInfo) where
  -- The handler, which sends its answer back with the server that was asked. `taken` is whether `sendto`
  -- takes it.
  pub run : Bound → ℤ → List ℕ → UdpServer RouteLbs → Outcome (UdpServer RouteLbs)
  run (get_host_of i) msgid body s = do
    ((id, bytes), lb) ← get_host_handler parse serialize left_over h_info body (s.state i)
    (ret, s') ← send taken id bytes (record s { state = set_route_lb s.state i lb })
    ok s'

  -- The handlers that a server finds.
  pub handlers_of : HandlerMap Bound → Handlers (UdpServer RouteLbs)
  unfolding run
  handlers_of m msgid = elim (get_handler msgid m) [ none ↦ none | some bound ↦ some (run bound) ]
