-- ===== src/Agent/UdpServer.antt =====
-- get_host_handler (lars_agent/src/agent_udp_server.cc): the agent's answer to a GetHostRequest.
use lars_study.Prelude.{ℕ, List, ℤ, pos, to_int, Outcome, ok, ◌>>=◌}
use lars_study.Dns.Subscribe
use lars_study.Agent.LoadBalance.{HostInfo, LarsRetCode, ret_succ, ret_overload, ret_noexist}
use lars_study.Agent.RouteLb.{RouteLb, get_host}

-- lars::GetHostRequest
pub record GetHostRequest : Type 0 where
  pub seq : ℕ
  pub modid : ℤ
  pub cmdid : ℤ

-- lars::GetHostResponse; its host is the message lars::HostInfo.
pub record GetHostResponse : Type 0 where
  pub seq : ℕ
  pub modid : ℤ
  pub cmdid : ℤ
  pub retcode : ℤ
  pub host : Subscribe.HostInfo

-- The numbers of lars::LarsRetCode.
abbrev pub ret_code : LarsRetCode → ℤ
ret_code ret_succ = pos 0
ret_code ret_overload = pos 1
ret_code ret_noexist = pos 3

-- A message whose fields are not set.
abbrev pub no_host : Subscribe.HostInfo
no_host = record { ip = pos 0; port = pos 0 }

-- The host of the response: it is set on success only.
pub chosen : LarsRetCode → HostInfo → Subscribe.HostInfo
chosen ret_succ h_info = record { ip = to_int h_info.ip; port = to_int h_info.port }
chosen ret_overload h_info = no_host
chosen ret_noexist h_info = no_host

-- lars::ID_GetHostRequest, lars::ID_GetHostResponse
abbrev pub id_get_host_request : ℤ
id_get_host_request = pos 4

abbrev pub id_get_host_response : ℤ
id_get_host_response = pos 5

-- protobuf's ParseFromArray and SerializeToString are arguments.
module _ (parse : List ℕ → GetHostRequest) (serialize : GetHostResponse → List ℕ) where
  -- The message that is sent, its id and its bytes, and the load balancers. `h_info` is what a
  -- host_info that nothing has been written to holds.
  unfoldable pub get_host_handler :
      ℤ → HostInfo → List ℕ → RouteLb → Outcome ((ℤ × List ℕ) × RouteLb)
  get_host_handler left_over h_info data_bytes r_lb =
      let req = parse data_bytes in
      get_host left_over req.modid req.cmdid h_info r_lb >>= λ (ret, h_info', r_lb'). ok (
        (
          id_get_host_response,
          serialize (record {
            seq = req.seq;
            modid = req.modid;
            cmdid = req.cmdid;
            retcode = ret_code ret;
            host = chosen ret h_info';
          }),
        ),
        r_lb',
      )
