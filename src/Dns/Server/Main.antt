-- ===== src/Dns/Server/Main.antt =====
-- The dns service from its settings on (dns_server and main of lars_dns/src/dns_server.cc).
mod Examples
use lars_study.Prelude.{ℕ, ◌+◌, refl, Bool, [], Option, none, ℤ, Str, Outcome, ok, ◌>>=◌}
use lars_study.Config.Database.{DbSettings}
use lars_study.Config.Load.{ConfigFile, no_sections, load, set_path, instance_of}
use lars_study.Net.TcpServer.{TcpServer}
use lars_study.Net.EventLoop.{EventLoop}
use lars_study.Net.TcpServer.Settings.{Kernel, serving, start_server}
use lars_study.Dns.Route.{Answer, Row, Route}
use lars_study.Dns.Route.Starting.{route}

-- dns_server::dns_server: the listening descriptor, the address, the port and the server. The handlers
-- are `dns_handlers` and `on_build`.
pub dns_server :
    {C : Type 0}
    → Kernel
    → C
    → ConfigFile
    → EventLoop C
    → Outcome (ℕ × Str × ℕ × TcpServer (EventLoop C))
dns_server kernel accept_callback c loop = serving kernel accept_callback 7778 c loop

-- dns_server::start, up to the main loop: the route is made first.
pub start :
    {L : Type 0}
    → (ℕ → L)
    → Outcome Route
    → ℕ × Str × ℕ × TcpServer L
    → Outcome (Route × ℕ × Str × ℕ × TcpServer L)
start started get_instance s = do
  r ← get_instance
  let (listen_fd, ip, port, server) = start_server started s
  ok (r, listen_fd, ip, port, server)

-- main, for a configuration file, with the answers of the kernel and of MySQL.
pub main :
    {C : Type 0}
    → Kernel
    → C
    → (DbSettings → Bool)
    → Answer Row
    → Answer ℤ
    → (ℕ → EventLoop C)
    → EventLoop C
    → Option Str
    → Outcome (Route × ℕ × Str × ℕ × TcpServer (EventLoop C))
unfolding dns_server start
main kernel accept_callback connected route_rows version_row started loop file = do
  (loaded, config) ← set_path none file
  c ← instance_of config
  server ← dns_server kernel accept_callback c loop
  start started (route connected c route_rows version_row) server
