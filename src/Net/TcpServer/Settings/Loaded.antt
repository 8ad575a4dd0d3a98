-- ===== src/Net/TcpServer/Settings/Loaded.antt =====
-- What a configuration file makes of a server.
use lars_study.Prelude.{
  ℕ, ◌%◌, ◌<◌, ◌≡◌, ◌∙◌, ap, true, refl, List, [], none, some, pos, natural, to_int, to_u32,
  to_int_small, int_bound, le→ltb, decimal, arith, Str, codes, ok,
}
use lars_study.Config.Load.{ConfigFile, no_sections, load}
use lars_study.Config.Load.Lines.{Line}
use lars_study.Config.Load.Written.{
  file_text, AllWritten, IsHeaded, last_value, value_at-load, get_or, get_string_lem,
}
use lars_study.Config.Values.Numbers.{stored, get_number_lem}
use lars_study.Net.ThreadPool.{set_thread_num}
use lars_study.Net.Socket.{create_socket, bind, listen}
use lars_study.Net.EventLoop.{EventLoop, add_io_event, epollin_only}
use lars_study.Net.TcpServer.{tcp_server, open_server}
use lars_study.Net.TcpServer.Settings.{Kernel, listening, serving}

pub stored_small : (n : ℕ) → n < int_bound → to_int (stored n) ≡ pos n
stored_small n h =
    let kept : stored n ≡ n = rw (le→ltb 9223372036854775807 n (omega arith)) (omega arith) in
    ap to_int kept ∙ to_int_small n h

-- What the file gives a key of the section `reactor` last.
abbrev pub Gives : List Line → Str → Str → Type 0
Gives ls key value = last_value none ls (codes "reactor") key none ≡ some value

-- Where a file is written line by line, has no key before the first section, and gives an address, a port, a number of threads and a limit on
-- connections in decimal, it loads, and the service's server has this address, this port, this number of
-- threads and this limit. The port is below 65536, the other two below 2^31.
pub listening-load :
    {L : Type 0} (ls : List Line) (default_port : ℕ) (loop : L) (ip : Str) (port threads conns : ℕ)
    → AllWritten ls
    → IsHeaded none ls
    → Gives ls (codes "ip") ip
    → Gives ls (codes "port") (decimal port)
    → Gives ls (codes "threadNum") (decimal threads)
    → Gives ls (codes "maxConn") (decimal conns)
    → port < 65536
    → threads < int_bound
    → conns < int_bound
    → (c : ConfigFile) × (load (some (file_text ls)) no_sections ≡ ok (true, c))
      × ((listening default_port c loop).0 ≡ ip)
      × ((listening default_port c loop).1 ≡ port)
      × ((listening default_port c loop).2.thread_pool.thread_num ≡ threads)
      × ((listening default_port c loop).2.max_conn_nums ≡ pos conns)
unfolding listening tcp_server set_thread_num to_u32
listening-load ls default_port loop ip port threads conns w h a b d e small few some_conns =
    let (c, f, values) = value_at-load ls w h in
    (
      c,
      f,
      get_string_lem c (codes "reactor") (codes "ip") (codes "0.0.0.0")
          ∙ ap (λ v. get_or v (codes "0.0.0.0")) (values (codes "reactor") (codes "ip") ∙ a),
      ap (λ n. to_u32 (to_int n) % 65536)
            (get_number_lem c (codes "reactor") (codes "port") port default_port
              (values (codes "reactor") (codes "port") ∙ b))
          ∙ ap (λ z. to_u32 z % 65536) (stored_small port (omega arith))
          ∙ omega arith,
      ap (λ n. natural (to_int n))
            (get_number_lem c (codes "reactor") (codes "threadNum") threads 3
              (values (codes "reactor") (codes "threadNum") ∙ d))
          ∙ ap natural (stored_small threads few),
      ap to_int (
            get_number_lem c (codes "reactor") (codes "maxConn") conns 1024
              (values (codes "reactor") (codes "maxConn") ∙ e))
          ∙ stored_small conns some_conns,
    )

-- No loop runs before the start.
pub listening_idle :
    {L : Type 0} (default_port : ℕ) (c : ConfigFile) (loop : L)
    → (listening default_port c loop).2.thread_pool.loops ≡ []
unfolding listening tcp_server set_thread_num
listening_idle default_port c loop = refl

-- Where the kernel takes the calls, the server listens.
pub serving-listens :
    {C : Type 0} (kernel : Kernel) (accept_callback : C) (default_port : ℕ) (c : ConfigFile)
    (loop : EventLoop C) (fd : ℕ) (ip : Str) (port : ℕ)
    → (listening default_port c (add_io_event loop fd epollin_only accept_callback kernel.ctl)).0
      ≡ ip
    → (listening default_port c (add_io_event loop fd epollin_only accept_callback kernel.ctl)).1
      ≡ port
    → kernel.socket ≡ some fd
    → kernel.bound ip port ≡ true
    → kernel.listened ≡ true
    → serving kernel accept_callback default_port c loop
      ≡ ok (
        fd,
        ip,
        port,
        (listening default_port c (add_io_event loop fd epollin_only accept_callback kernel.ctl)).2,
      )
unfolding serving open_server create_socket bind listen listening
serving-listens kernel accept_callback default_port c loop fd ip port at_ip at_port made bound
      listened =
    rw (serving, at_ip, at_port, made, bound, listened)

pub listening-main_loop :
    {L : Type 0} (default_port : ℕ) (c : ConfigFile) (loop : L)
    → (listening default_port c loop).2.thread_pool.main_loop ≡ loop
unfolding listening tcp_server set_thread_num
listening-main_loop default_port c loop = refl
