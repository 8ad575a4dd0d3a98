-- ===== src/Agent/Main.antt =====
-- The agent from its settings on (lars_agent/src/agent_server.cc).
mod Examples
use lars_study.Prelude.{
  All, ℕ, ◌<◌, ◌≡◌, ◌∙◌, refl, ap, Bool, true, List, [], ◌∷◌, ◌++◌, Option, none, some, codes,
  decimal, Str, Outcome, ok, ◌>>=◌,
}
use lars_study.Config.Load.{ConfigFile, set_path, instance_of}
use lars_study.Config.Load.Lines.{Line}
use lars_study.Config.Load.Effects.{set_path-instance_of}
use lars_study.Config.Load.Written.{
  file_text, AllWritten, IsHeaded, last_value, value_at-load, get_or, get_string_lem,
}
use lars_study.Config.Values.Numbers.{get_number_lem}
use lars_study.Buffer.Pool.{Pool}
use lars_study.Net.Handlers.{HandlerMap, no_handlers, get_handler}
use lars_study.Net.EventLoop.{EventLoop}
use lars_study.Net.TcpClient.{Callback, Client, Env, do_connect}
use lars_study.Agent.UdpServer.{id_get_host_request}
use lars_study.Agent.Servers.{
  RouteLbs, Bound, Kernel, create_route_lb, start_udp_servers, serve_udp,
}
use lars_study.Agent.Servers.Opening.{Opens, serve_udp-start_udp_servers}
use lars_study.Agent.Servers.Sharing.{get_handler-start_udp_servers}
use lars_study.Agent.DnsClient.Starting.{report_started, unconnected, start_dns_client_lem}
use lars_study.Agent.DnsClient.{start_dns_client, start_report_client}

-- What main leaves: the load balancers, the handlers, and the dns service's address with the pool and
-- the client of the dns client's thread.
pub record Agent : Type 0 where
  pub route_lbs : RouteLbs
  pub handlers : HandlerMap Bound
  pub dns_address : Str × ℕ
  pub pool : Pool
  pub dns_client : Client

-- init_lb_agent
pub init_lb_agent : Option Str → Outcome (ConfigFile × RouteLbs)
init_lb_agent file = do
  (loaded, config) ← set_path none file
  c ← instance_of config
  ok (c, create_route_lb)

-- main, where the servers register in `order`. `kernel` has the kernel's answers to the servers, `socket`
-- and `env` those to the dns client, and `report_started` and `loop` say what the threads of the two
-- clients have returned.
pub main :
    Kernel
    → (Str → ℕ → Env)
    → Pool
    → Bool
    → Option (EventLoop Callback)
    → Option ℕ
    → List ℕ
    → Option Str
    → Outcome Agent
unfolding init_lb_agent
main kernel env p report_started loop socket order file = do
  (c, route_lbs) ← init_lb_agent file
  handlers ← serve_udp kernel order no_handlers
  report ← start_report_client report_started
  (dns_address, p', dns_client) ← start_dns_client loop c socket env p
  ok (record {
    route_lbs = route_lbs;
    handlers = handlers;
    dns_address = dns_address;
    pool = p';
    dns_client = dns_client;
  })

-- With a kernel that gives each of the three UDP servers a socket and binds it to its port, with a file
-- that is written line by line, has no key before the first section, and gives the section `dnsserver`
-- an address and a port below 65536, and where both clients get their loops: whatever the connect of
-- the dns client to this address and port leaves, its way through a `short` losing nothing of the port,
-- the agent starts with it, and has the handlers of its servers in the order in which they registered.
pub main-do_connect :
    (kernel : Kernel) (env : Str → ℕ → Env) (p q : Pool) (fd : ℕ) (loop : EventLoop Callback)
    (d : Client) (order : List ℕ) (ls : List Line) (ip : Str) (port : ℕ)
    → kernel.hup ≡ true
    → kernel.pipe ≡ true
    → All (Opens kernel) order
    → AllWritten ls
    → IsHeaded none ls
    → last_value none ls (codes "dnsserver") (codes "ip") none ≡ some ip
    → last_value none ls (codes "dnsserver") (codes "port") none ≡ some (decimal port)
    → port < 65536
    → do_connect (env ip port) p (unconnected fd loop) ≡ ok (q, d)
    → main kernel env p true (some loop) (some fd) order (some (file_text ls))
      ≡ ok (record {
        route_lbs = create_route_lb;
        handlers = start_udp_servers order no_handlers;
        dns_address = (ip, port);
        pool = q;
        dns_client = d;
      })
unfolding main init_lb_agent
main-do_connect kernel env p q fd loop d order ls ip port hup pipe opens w h at_ip at_port small
      connects =
    let (c, loaded, values) = value_at-load ls w h in
    let (config, current) = set_path-instance_of (some (file_text ls)) true c loaded in
    let ip_same =
      get_string_lem c (codes "dnsserver") (codes "ip") (codes "")
      ∙ ap (λ v. get_or v (codes "")) (values (codes "dnsserver") (codes "ip") ∙ at_ip) in
    let port_same =
      get_number_lem c (codes "dnsserver") (codes "port") port 0
        (values (codes "dnsserver") (codes "port") ∙ at_port) in
    rw (
      config,
      current,
      serve_udp-start_udp_servers kernel order no_handlers hup pipe opens,
      report_started,
      start_dns_client_lem c env fd loop p q d ip port ip_same port_same small connects,
    )
