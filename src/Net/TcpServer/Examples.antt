-- ===== src/Net/TcpServer/Examples.antt =====
-- A server with a limit of one connection accepts a second.
use lars_study.Prelude.{ℕ, ◌≡◌, ◌==◌, if◌then◌else◌, refl, true, false, pos, [], ◌∷◌, ok, contains}
use lars_study.Net.ThreadPool.{thread_pool, get_next_loop}
use lars_study.Net.TcpServer.{
  TcpServer, after_error, after_accept, place, add_conn, accept_callback, delete_conn, run_deletion,
}
use lars_study.Net.Socket.{refused, connection, eintr, is_expected, accept}
use lars_study.Net.TcpServer.Deleting
use lars_study.Net.TcpServer.Deleting.{Served, close_conn, IsKept, Reach-IsKept}
use lars_study.Net.TcpConn.{connected, disconnected}

abbrev server : TcpServer ℕ
server = record {
  conns = λ fd. false;
  thread_pool = thread_pool 0;
  max_conn_nums = pos 1;
  conn_nums = 1;
  tasks = [];
  closed = [];
  deletions = [];
  has_on_close = true;
  close_calls = [];
}

abbrev second : TcpServer ℕ
second = place 8 server (0, thread_pool 0)

second_accepted : accept_callback (refused eintr eintr ∷ connection 8 ∷ []) server ≡ ok second
unfolding accept_callback after_accept after_error add_conn accept is_expected get_next_loop
second_accepted = refl

second_added : add_conn 8 server ≡ ok second
unfolding add_conn get_next_loop
second_added = refl

-- The server has no connection, and gets one, which closes twice before it is deleted.
abbrev before : Served ℕ
before = record { server = server; state = λ fd. disconnected }

abbrev added : Served ℕ
added = record { server = second; state = λ i. if i == 8 then connected else disconnected }

Reach-IsKept_example : IsKept (record {
  server = run_deletion (delete_conn 8 second);
  state = λ i. if i == 8 then disconnected else if i == 8 then connected else disconnected;
})
unfolding place contains close_conn
Reach-IsKept_example =
    Reach-IsKept
      (record { waiting = tt; kept = λ fd h. absurd (cc); not_waiting = λ fd h. refl; called = tt })
      (Deleting.next
        (Deleting.next
          (Deleting.next
            (Deleting.next Deleting.here (Deleting.adds before second 8 refl second_added))
            (Deleting.closes added 8))
          (Deleting.closes (close_conn 8 added) 8))
        (Deleting.deletes (close_conn 8 added)))
