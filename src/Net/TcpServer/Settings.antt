-- ===== src/Net/TcpServer/Settings.antt =====
-- The server of a service, as the constructors of dns_server (lars_dns/src/dns_server.cc) and of
-- reporter_server (lars_reporter/src/reporter_server.cc) make it.
pub mod Loaded
use lars_study.Prelude.{
  Bool, Option, Outcome, ok, ◌>>=◌, ℕ, ◌%◌, false, ℤ, natural, to_int, to_u32, Str, codes,
}
use lars_study.Config.Load.{ConfigFile, get_string}
use lars_study.Config.Values.{get_number}
use lars_study.Net.ThreadPool
use lars_study.Net.TcpServer.{TcpServer, tcp_server, open_server}
use lars_study.Net.EventLoop.{EventLoop}

-- The address, the port as an `uint16_t`, and the server. The two services differ in the port that they
-- have without settings; neither sets a close callback.
pub listening : {L : Type 0} → ℕ → ConfigFile → L → Str × ℕ × TcpServer L
listening default_port c loop =
    let ip = get_string c (codes "reactor") (codes "ip") (codes "0.0.0.0") in
    let port = to_int (get_number c (codes "reactor") (codes "port") default_port) in
    let thread_num = to_int (get_number c (codes "reactor") (codes "threadNum") 3) in
    (ip, to_u32 port % 65536, tcp_server c loop false (natural thread_num))

-- What the kernel answers to the constructor of a tcp_server: to `socket`, to `bind` with an address and a
-- port, to `listen` and to `epoll_ctl`.
pub record Kernel : Type 0 where
  pub socket : Option ℕ
  pub bound : Str → ℕ → Bool
  pub listened : Bool
  pub ctl : Bool

-- The server that has opened its socket, behind the listening descriptor. The process ends where the
-- kernel refuses one of the calls.
pub serving :
    {C : Type 0}
    → Kernel
    → C
    → ℕ
    → ConfigFile
    → EventLoop C
    → Outcome (ℕ × Str × ℕ × TcpServer (EventLoop C))
serving kernel accept_callback default_port c loop = do
  let (ip, port, _) = listening default_port c loop
  (listen_fd, loop') ←
      open_server kernel.socket (kernel.bound ip port) kernel.listened kernel.ctl accept_callback
        loop
  ok (listen_fd, ip, port, (listening default_port c loop').2)

-- tcp_server::start, where the thread `i` hands over the loop `started i`.
abbrev pub start_server :
    {L : Type 0} → (ℕ → L) → ℕ × Str × ℕ × TcpServer L → ℕ × Str × ℕ × TcpServer L
start_server started (listen_fd, ip, port, s) =
    (listen_fd, ip, port, record s { thread_pool = ThreadPool.start started s.thread_pool })
