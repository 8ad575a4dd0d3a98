-- ===== src/Agent/DnsClient/Starting.antt =====
-- Where the agent's dns client connects to.
use lars_study.Prelude.{
  ℕ, ◌%◌, ◌<◌, ◌≡◌, refl, true, false, none, some, [], arith, codes, ltb, le→ltb, Bool-cases, inl,
  inr, to_u32, Str, ok,
}
use lars_study.Config.Load.{ConfigFile, get_string}
use lars_study.Config.Values.{get_number}
use lars_study.Config.Values.Numbers.{stored}
use lars_study.Config.Database.{to_short}
use lars_study.Buffer.Pool.{Pool}
use lars_study.Net.Socket.{create_socket}
use lars_study.Net.EventLoop.{EventLoop}
use lars_study.Net.TcpClient.{Callback, Client, Env, tcp_client, do_connect}
use lars_study.Agent.DnsClient.{dns_address, start_dns_client, start_report_client}

pub report_started : start_report_client true ≡ ok true
unfolding start_report_client
report_started = refl

-- The port through a `short`.
short_port : (n : ℕ) → n < 65536 → to_u32 (to_short (stored n)) % 65536 ≡ n
unfolding to_short to_u32
short_port n h =
    let kept : stored n ≡ n = rw (le→ltb 9223372036854775807 n (omega arith)) (omega arith) in
    let within : n % 65536 ≡ n = omega arith in
    elim (Bool-cases (ltb n 32768)) [
      | inl low ↦ rw (kept, within, low) (ground arith)
      | inr high ↦ rw (kept, within, high) (ground arith)
    ]

-- A new client.
abbrev pub unconnected : ℕ → EventLoop Callback → Client
unconnected fd loop = record { fd = fd; is_connected = false; obuf = none; loop = loop; wire = [] }

-- The client connects to the address and the port of the settings.
pub start_dns_client_lem :
    (c : ConfigFile) (env : Str → ℕ → Env) (fd : ℕ) (loop : EventLoop Callback) (p q : Pool)
    (d : Client) (ip : Str) (port : ℕ)
    → get_string c (codes "dnsserver") (codes "ip") (codes "") ≡ ip
    → get_number c (codes "dnsserver") (codes "port") 0 ≡ stored port
    → port < 65536
    → do_connect (env ip port) p (unconnected fd loop) ≡ ok (q, d)
    → start_dns_client (some loop) c (some fd) env p ≡ ok ((ip, port), q, d)
unfolding start_dns_client dns_address tcp_client create_socket
start_dns_client_lem c env fd loop p q d ip port at_ip at_port small connects =
    rw (at_ip, at_port, short_port port small, connects)
