-- ===== src/Agent/DnsClient.antt =====
-- dns_client and report_client (lars_agent/include/agent_dns_client.h,
-- lars_agent/include/agent_report_client.h): the agent's connection to the dns service, and the request
-- that load_balance::pull (lars_agent/src/load_balance.cc) sends on it.
pub mod Unanswered
pub mod Starting
mod Examples
use lars_study.Prelude.{
  ℕ, ◌%◌, Option, none, some, Bool, List, ℤ, to_u32, Str, codes, if◌then◌else◌, Outcome, ok, stop,
  exit_failure, ◌>>=◌,
}
use lars_study.Config.Load.{ConfigFile, get_string}
use lars_study.Config.Values.{get_number}
use lars_study.Config.Database.{to_short}
use lars_study.Buffer.Pool.{Pool}
use lars_study.Net.TcpClient
use lars_study.Net.EventLoop.{EventLoop}
use lars_study.Net.TcpClient.{Callback, Client, Env, tcp_client, do_connect}
use lars_study.Agent.LoadBalance.{LoadBalance}
use lars_study.Agent.UdpServer.{GetHostRequest, id_get_host_request}

-- The address of the dns service: its port is a `short` before tcp_client hands it to `htons`.
pub dns_address : ConfigFile → Str × ℕ
dns_address c =
    let ip = get_string c (codes "dnsserver") (codes "ip") (codes "") in
    let port = to_short (get_number c (codes "dnsserver") (codes "port") 0) in
    (ip, to_u32 port % 65536)

-- dns_client::start: the address, the pool and the client. `loop` is what the thread has returned,
-- `socket` the kernel's answer, and `env ip port` holds its answer to `connect` with this address.
pub start_dns_client :
    Option (EventLoop Callback)
    → ConfigFile
    → Option ℕ
    → (Str → ℕ → Env)
    → Pool
    → Outcome ((Str × ℕ) × Pool × Client)
start_dns_client none c socket env p = stop exit_failure
start_dns_client (some loop) c socket env p = do
  let (ip, port) = dns_address c
  client ← tcp_client socket loop
  (p', connecting) ← do_connect (env ip port) p client
  ok ((ip, port), p', connecting)

-- report_client::start
pub start_report_client : Bool → Outcome Bool
start_report_client started = if started then ok started else stop exit_failure

-- dns_client::send
pub send : Env → ℤ → List ℕ → Pool → Client → Outcome (ℤ × Pool × Client)
send env msgid bs p c = TcpClient.send env msgid bs p c

-- protobuf's SerializeAsString is an argument.
module _ (serialize : GetHostRequest → List ℕ) where
  -- The message of pull; its `seq` is not set.
  pub pull_request : LoadBalance → ℤ × List ℕ
  pull_request lb =
      (id_get_host_request, serialize (record { seq = 0; modid = lb.modid; cmdid = lb.cmdid }))

  -- The task that pull hands to the client's loop.
  pub pull_task : Env → LoadBalance → Pool → Client → Outcome (Pool × Client)
  unfolding send
  pull_task env lb p c = do
    let (id, req_str) = pull_request lb
    (ret, p', c') ← send env id req_str p c
    ok (p', c')
