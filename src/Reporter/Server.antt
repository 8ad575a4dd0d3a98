-- ===== src/Reporter/Server.antt =====
-- The reporter service from its settings on (reporter_server and main of
-- lars_reporter/src/reporter_server.cc).
use lars_study.Prelude.{Bool, stop, ℕ, Option, none, Str, Outcome, ok, ◌>>=◌}
use lars_study.Config.Load.{ConfigFile, no_sections, set_path, instance_of}
use lars_study.Net.TcpServer.{TcpServer}
use lars_study.Net.EventLoop.{EventLoop}
use lars_study.Net.TcpServer.Settings.{Kernel, serving, start_server}
use lars_study.Reporter.Pool.{StorePool, store_thread_pool, start_pool}

-- reporter_server::reporter_server. The handler is get_report_status.
pub reporter_server :
    {C : Type 0}
    → Kernel
    → C
    → ConfigFile
    → EventLoop C
    → Outcome (ℕ × Str × ℕ × TcpServer (EventLoop C))
reporter_server kernel accept_callback c loop = serving kernel accept_callback 7779 c loop

-- reporter_server::start, up to the main loop: the storing threads are started first. Their loops are
-- `stores i`, the server's `started i`.
pub start :
    {L : Type 0}
    → (ℕ → ℕ)
    → (ℕ → L)
    → ConfigFile
    → ℕ × Str × ℕ × TcpServer L
    → StorePool × ℕ × Str × ℕ × TcpServer L
start stores started c s =
    let (listen_fd, ip, port, server) = start_server started s in
    (start_pool stores (store_thread_pool c), listen_fd, ip, port, server)

-- main, for a configuration file, with the answers of the kernel.
pub main :
    {C : Type 0}
    → Kernel
    → C
    → (ℕ → ℕ)
    → (ℕ → EventLoop C)
    → EventLoop C
    → Option Str
    → Outcome (StorePool × ℕ × Str × ℕ × TcpServer (EventLoop C))
unfolding reporter_server start
main kernel accept_callback stores started loop file = do
  (loaded, config) ← set_path none file
  c ← instance_of config
  server ← reporter_server kernel accept_callback c loop
  ok (start stores started c server)

abbrev config_of : Outcome (Bool × ConfigFile) → ConfigFile
config_of (ok (loaded, c)) = c
config_of (stop e) = no_sections
