-- ===== src/Agent/Servers/Opening.antt =====
-- The sockets of the three servers.
use lars_study.Prelude.{
  ℕ, ◌+◌, ◌%◌, ◌<◌, ◌≡◌, refl, true, lt→ltb, List, [], ◌∷◌, All, some, arith, to_u32, ok,
}
use lars_study.Config.Database.{to_short}
use lars_study.Net.Handlers.{HandlerMap}
use lars_study.Net.Socket.{create_socket}
use lars_study.Net.Udp.Opening.{udp_server}
use lars_study.Agent.Servers.{
  Bound, Kernel, run_udp_server, start_udp_servers, open_udp_server, serve_udp,
}

-- The kernel gives the server `i` a socket and binds it to its port.
abbrev pub Opens : Kernel → ℕ → Type 0
Opens kernel i =
    (i < 3) × ((fd : ℕ) × (kernel.socket i ≡ some fd)) × (kernel.bound (8888 + i) ≡ true)

port_of : (i : ℕ) → i < 3 → to_u32 (to_short (i + 8888)) % 65536 ≡ 8888 + i
unfolding to_short to_u32
port_of i h =
    let kept : (i + 8888) % 65536 ≡ 8888 + i = omega arith in
    rw (kept, lt→ltb (8888 + i) 32768 (omega arith)) (omega arith)

-- Where each socket opens, the handlers are registered.
pub serve_udp-start_udp_servers :
    (kernel : Kernel) (order : List ℕ) (m : HandlerMap Bound)
    → kernel.hup ≡ true
    → kernel.pipe ≡ true
    → All (Opens kernel) order
    → serve_udp kernel order m ≡ ok (start_udp_servers order m)
unfolding serve_udp start_udp_servers open_udp_server udp_server create_socket
serve_udp-start_udp_servers kernel [] m hup pipe h = refl
serve_udp-start_udp_servers kernel (i ∷ order) m hup pipe ((small, (fd, made), bound), h) =
    rw (port_of i small, made, bound, hup, pipe)
      (serve_udp-start_udp_servers kernel order (run_udp_server i m) hup pipe h)
