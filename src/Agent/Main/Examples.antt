-- ===== src/Agent/Main/Examples.antt =====
-- An agent whose dns service is on this machine, at port 40000.
use lars_study.Prelude.{
  ◌+◌, leb, ◌≡◌, refl, true, List, [], ◌∷◌, none, some, arith, Str, codes, decimal, ok,
}
use lars_study.Config.Trim.{is_space}
use lars_study.Config.Load.Lines.{Line, header, entry}
use lars_study.Config.Load.Written.{file_text, AllWritten}
use lars_study.Buffer.Pool.{buf_pool}
use lars_study.Net.Handlers.{no_handlers}
use lars_study.Net.EventLoop.{event_loop, add_io_event, epollout_only}
use lars_study.Net.TcpClient.{Client, Env, in_progress, on_connect}
use lars_study.Net.TcpClient.Connecting.{do_connect_progress}
use lars_study.Agent.Servers.{Kernel, create_route_lb, start_udp_servers}
use lars_study.Agent.DnsClient.Starting.{unconnected}
use lars_study.Agent.Main.{main, main-do_connect}

abbrev setting : Str → Str → Line
setting key value = entry [] key (codes " ") (codes " ") value []

abbrev file : List Line
file =
    header [] [] (codes "dnsserver") [] []
    ∷ setting (codes "ip") (codes "127.0.0.1")
    ∷ setting (codes "port") (decimal 40000)
    ∷ []

file-AllWritten : AllWritten file
unfolding is_space decimal
file-AllWritten = ground arith

abbrev env : Env
env = record { on_build = none; on_close = none; ctl = true; connect = in_progress }

abbrev connecting : Client
connecting = record (unconnected 6 event_loop) {
  loop = add_io_event event_loop 6 epollout_only on_connect true;
}

-- The kernel gives the sockets 3, 4 and 5 for the ports 8888, 8889 and 8890.
abbrev kernel : Kernel
kernel = record {
  socket = λ i. some (i + 3);
  bound = λ port. leb 8888 port;
  hup = true;
  pipe = true;
  ctl = true;
}

main-do_connect_example :
    main kernel
      (λ ip port. env)
      buf_pool
      true
      (some event_loop)
      (some 6)
      (2 ∷ 0 ∷ 1 ∷ [])
      (some (file_text file))
    ≡ ok (record {
      route_lbs = create_route_lb;
      handlers = start_udp_servers (2 ∷ 0 ∷ 1 ∷ []) no_handlers;
      dns_address = (codes "127.0.0.1", 40000);
      pool = buf_pool;
      dns_client = connecting;
    })
main-do_connect_example =
    main-do_connect kernel (λ ip port. env) buf_pool buf_pool 6 event_loop connecting
      (2 ∷ 0 ∷ 1 ∷ []) file (codes "127.0.0.1") 40000 refl refl
      (
        (omega arith, (5, refl), refl),
        ((omega arith, (3, refl), refl), ((omega arith, (4, refl), refl), tt)),
      )
      file-AllWritten tt refl refl (omega arith)
      (do_connect_progress env buf_pool (unconnected 6 event_loop) refl)
