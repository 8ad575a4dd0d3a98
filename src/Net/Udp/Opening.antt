-- ===== src/Net/Udp/Opening.antt =====
-- The constructors and the destructors of udp_server and udp_client
-- (lars_reactor/src/udp_server.cc, lars_reactor/src/udp_client.cc).
use lars_study.Prelude.{
  ℕ, ◌≡◌, Bool, true, false, ◌==◌, if◌then◌else◌, Option, none, some, Outcome, ok, stop,
  exit_failure, ◌>>=◌, Returns, Bool-cases, inl, inr,
}
use lars_study.Net.Socket.{create_socket}
use lars_study.Net.EventLoop.{
  EventLoop, union, no_events, add_io_event, del_io_event, interest, epollin_only,
}
use lars_study.Net.EventLoop.Registration.{interest-add_io_event, interest-del_io_event}

-- A call whose failure ends the process.
abbrev perform : {A : Type 0} → Bool → Outcome A → Outcome A
perform taken next = if taken then next else stop exit_failure

perform-Returns :
    {A : Type 0} (taken : Bool) (next : Outcome A) (P : A → Type 0)
    → Returns next P
    → Returns (perform taken next) P
perform-Returns true next P h = h
perform-Returns false next P h = tt

module _ {C : Type 0} where
  -- udp_server::udp_server, with the answers to `socket`, to both calls of `signal`, to `bind` and to
  -- `epoll_ctl`: the descriptor, and the loop that calls `do_read`.
  unfoldable pub udp_server :
      Option ℕ → Bool → Bool → Bool → Bool → C → EventLoop C → Outcome (ℕ × EventLoop C)
  udp_server socket hup pipe bound ctl do_read loop = do
    fd ← create_socket socket
    perform hup
        (perform pipe (perform bound (ok (fd, add_io_event loop fd epollin_only do_read ctl))))

  -- udp_client::udp_client, which connects where the server binds.
  pub udp_client :
      Option ℕ → Bool → Bool → Bool → Bool → C → EventLoop C → Outcome (ℕ × EventLoop C)
  udp_client socket hup pipe connected ctl do_read loop = do
    fd ← create_socket socket
    perform hup
        (perform pipe (perform connected (ok (fd, add_io_event loop fd epollin_only do_read ctl))))

  -- udp_server::~udp_server, udp_client::~udp_client
  pub udp_destroyed : ℕ → EventLoop C → EventLoop C
  udp_destroyed fd loop = del_io_event loop fd

  -- What a loop waits for while the socket is open, and once it is destroyed.
  abbrev pub Opens : EventLoop C → ℕ × EventLoop C → Type 0
  Opens loop (fd, l) =
      ((i : ℕ)
        → interest l i
          ≡ (if i == fd then union (interest loop i) epollin_only else interest loop i))
      × ((i : ℕ)
          → interest (udp_destroyed fd l) i ≡ (if i == fd then no_events else interest loop i))

  add-Opens :
      (fd : ℕ) (do_read : C) (ctl : Bool) (loop : EventLoop C)
      → Opens loop (fd, add_io_event loop fd epollin_only do_read ctl)
  unfolding udp_destroyed
  add-Opens fd do_read ctl loop = (
    interest-add_io_event loop fd epollin_only do_read ctl,
    λ i. elim (Bool-cases (i == fd)) [
      | inl same ↦
          rw (interest-del_io_event (add_io_event loop fd epollin_only do_read ctl) fd i, same)
      | inr other ↦ rw (
        interest-del_io_event (add_io_event loop fd epollin_only do_read ctl) fd i,
        other,
        interest-add_io_event loop fd epollin_only do_read ctl i,
        other,
      )
    ],
  )

  -- A server that is made without the process exiting waits for input on its descriptor, besides what the
  -- loop waited for; once it is destroyed, the loop waits for nothing there and for the rest as before.
  pub udp_server-Returns :
      (socket : Option ℕ) (hup pipe bound ctl : Bool) (do_read : C) (loop : EventLoop C)
      → Returns (udp_server socket hup pipe bound ctl do_read loop) (Opens loop)
  unfolding udp_server create_socket
  udp_server-Returns none hup pipe bound ctl do_read loop = tt
  udp_server-Returns (some fd) hup pipe bound ctl do_read loop =
      perform-Returns hup _ (Opens loop) (
        perform-Returns pipe _ (Opens loop)
          (perform-Returns bound _ (Opens loop) (add-Opens fd do_read ctl loop)))

  -- The same for a client.
  pub udp_client-Returns :
      (socket : Option ℕ) (hup pipe connected ctl : Bool) (do_read : C) (loop : EventLoop C)
      → Returns (udp_client socket hup pipe connected ctl do_read loop) (Opens loop)
  unfolding udp_client create_socket
  udp_client-Returns none hup pipe connected ctl do_read loop = tt
  udp_client-Returns (some fd) hup pipe connected ctl do_read loop =
      perform-Returns hup _ (Opens loop) (
        perform-Returns pipe _ (Opens loop)
          (perform-Returns connected _ (Opens loop) (add-Opens fd do_read ctl loop)))
