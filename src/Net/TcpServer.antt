-- ===== src/Net/TcpServer.antt =====
-- tcp_server (lars_reactor/include/tcp_server.h, lars_reactor/src/tcp_server.cc): accepting connections
-- and handing them to the loops.
pub mod Accepting
pub mod Deleting
pub mod Settings
mod Examples
use lars_study.Prelude.{
  Option, ℕ, suc, ◌+◌, ◌-◌, ◌<◌, ◌≤◌, ◌≡◌, Bool, true, false, List, [], ◌∷◌, ◌++◌, ltb_ℤ, ℤ, pos,
  to_int, codes, ◌==◌, if◌then◌else◌, Outcome, ok, stop, exit_failure, ◌>>=◌,
}
use lars_study.Config.Load.{ConfigFile}
use lars_study.Config.Values.{get_number}
use lars_study.Net.Socket.{
  Errno, eintr, emfile, eagain, Accept4, AcceptResult, accepted, failed, accept, create_socket,
  bind, listen,
}
use lars_study.Net.EventLoop.{EventLoop, add_io_event, epollin_only}
use lars_study.Net.ThreadPool.{ThreadPool, thread_pool, set_thread_num, get_next_loop}

-- `conn_nums` is the process's `s_conn_nums`. `tasks` lists the connections whose `listen_read` was
-- handed to a loop, `closed` the descriptors that were closed at once, and `deletions` the descriptors
-- whose deletion waits in the main loop. `has_on_close` is whether the user has set a close callback,
-- and `close_calls` lists its calls, each with whether there is a connection at the pointer that it
-- gets. Loops have the type `L`.
pub record TcpServer (L : Type 0) : Type 0 where
  pub conns : ℕ → Bool
  pub thread_pool : ThreadPool L
  pub max_conn_nums : ℤ
  pub conn_nums : ℕ
  pub tasks : List (L × ℕ)
  pub closed : List ℕ
  pub deletions : List ℕ
  pub has_on_close : Bool
  pub close_calls : List (ℕ × Bool)

abbrev pub max_conns : ℕ
max_conns = 1024

module _ {L : Type 0} where
  place : ℕ → TcpServer L → L × ThreadPool L → TcpServer L
  place connfd s (loop, pool) = record s {
    conns = λ i. if i == connfd then true else s.conns i;
    thread_pool = pool;
    conn_nums = suc s.conn_nums;
    tasks = s.tasks ++ (loop, connfd) ∷ [];
  }

  -- A new tcp_conn, which counts itself, on the next loop.
  pub add_conn : ℕ → TcpServer L → Outcome (TcpServer L)
  unfolding place
  add_conn connfd s = do r ← get_next_loop s.thread_pool; ok (place connfd s r)

  -- What the loop does after an error: it goes on with `rest`, or it ends.
  after_error : Errno → Outcome (TcpServer L) → TcpServer L → Outcome (TcpServer L)
  after_error eintr rest s = rest
  after_error emfile rest s = rest
  after_error eagain rest s = ok s
  after_error _ rest s = stop exit_failure

  -- What a round does with what it has accepted.
  after_accept : AcceptResult → Outcome (TcpServer L) → TcpServer L → Outcome (TcpServer L)
  unfolding after_error add_conn
  after_accept (accepted connfd) rest s =
      if ltb_ℤ s.max_conn_nums (pos s.conn_nums)
      then ok (record s { closed = s.closed ++ connfd ∷ [] })
      else add_conn connfd s
  after_accept (failed error) rest s = after_error error rest s

  -- tcp_server::accept_callback. Where the list of answers ends there is nothing left to accept.
  pub accept_callback : List Accept4 → TcpServer L → Outcome (TcpServer L)
  unfolding after_accept
  accept_callback [] s = ok s
  accept_callback (a ∷ rs) s = let rest = accept_callback rs s in after_accept (accept a) rest s

  -- tcp_server::delete_conn, the close callback of each connection.
  pub delete_conn : ℕ → TcpServer L → TcpServer L
  delete_conn fd s = record s { deletions = s.deletions ++ fd ∷ [] }

  -- tcp_server::delete_conn_inloop. `m_conns[fd]` is null where there is no connection.
  pub delete_conn_inloop : ℕ → TcpServer L → TcpServer L
  delete_conn_inloop fd s = record s {
    conns = λ i. if i == fd then false else s.conns i;
    close_calls = if s.has_on_close then s.close_calls ++ (fd, s.conns fd) ∷ [] else s.close_calls;
  }

  run_deletions : List ℕ → TcpServer L → TcpServer L
  run_deletions [] s = s
  run_deletions (fd ∷ rest) s = delete_conn_inloop fd (record s { deletions = rest })

  -- The main loop runs the deletion that has waited longest.
  pub run_deletion : TcpServer L → TcpServer L
  unfolding run_deletions delete_conn_inloop
  run_deletion s = run_deletions s.deletions s

  -- The destructor of a tcp_conn.
  pub conn_destroyed : TcpServer L → TcpServer L
  conn_destroyed s = record s { conn_nums = s.conn_nums - 1 }

  -- tcp_server::send_task: the loops that are handed the task.
  pub send_task : TcpServer L → List L
  send_task s = s.thread_pool.main_loop ∷ s.thread_pool.loops

  -- The server that the constructor makes, as far as it does not concern the sockets, with the callbacks
  -- and the number of threads that are set afterwards.
  pub tcp_server : ConfigFile → L → Bool → ℕ → TcpServer L
  tcp_server c loop has_on_close thread_num = record {
    conns = λ fd. false;
    thread_pool = set_thread_num thread_num (thread_pool loop);
    max_conn_nums = to_int (get_number c (codes "reactor") (codes "maxConn") max_conns);
    conn_nums = 0;
    tasks = [];
    closed = [];
    deletions = [];
    has_on_close = has_on_close;
    close_calls = [];
  }

-- The sockets of the constructor, with the answers to `socket`, `bind`, `listen` and `epoll_ctl`: the
-- listening descriptor, and the loop that calls `accept_callback`. What `signal` answers changes nothing.
pub open_server :
    {C : Type 0} → Option ℕ → Bool → Bool → Bool → C → EventLoop C → Outcome (ℕ × EventLoop C)
open_server socket bound listened ctl accept_callback loop = do
  listen_fd ← create_socket socket
  bind bound (
      listen listened
        (ok (listen_fd, add_io_event loop listen_fd epollin_only accept_callback ctl)))
