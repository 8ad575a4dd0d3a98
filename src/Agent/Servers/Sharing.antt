-- ===== src/Agent/Servers/Sharing.antt =====
-- Whose load balancers the servers ask.
use lars_study.Prelude.{
  ℕ, ◌+◌, ◌≤◌, ◌≡◌, true, refl, ◌∙◌, ap, List, [], ◌∷◌, ◌++◌, some, arith, ℤ, length, ok,
}
use lars_study.Buffer.Memory.{Memory}
use lars_study.Net.Message.{Message, encode}
use lars_study.Net.Handlers.{HandlerMap, register_handler, get_handler}
use lars_study.Net.Udp.{UdpServer, datagram, buf_size, do_read}
use lars_study.Net.Udp.Exchange.{send-encode, do_read-encode}
use lars_study.Agent.LoadBalance.{HostInfo, LarsRetCode}
use lars_study.Agent.RouteLb.{RouteLb, get_host}
use lars_study.Agent.UdpServer.{
  GetHostRequest, GetHostResponse, id_get_host_request, ret_code, chosen, id_get_host_response,
  get_host_handler,
}
use lars_study.Agent.Servers.{
  RouteLbs, set_route_lb, Bound, get_host_of, run_udp_server, start_udp_servers, run, handlers_of,
}

start_udp_servers-append :
    (order : List ℕ) (k : ℕ) (m : HandlerMap Bound)
    → start_udp_servers (order ++ k ∷ []) m ≡ run_udp_server k (start_udp_servers order m)
unfolding start_udp_servers
start_udp_servers-append [] k m = refl
start_udp_servers-append (i ∷ order) k m = start_udp_servers-append order k (run_udp_server i m)

pub get_handler-start_udp_servers :
    (order : List ℕ) (k : ℕ) (m : HandlerMap Bound)
    → get_handler id_get_host_request (start_udp_servers (order ++ k ∷ []) m) ≡ some (get_host_of k)
unfolding get_handler register_handler run_udp_server
get_handler-start_udp_servers order k m =
    ap (get_handler id_get_host_request) (start_udp_servers-append order k m)

module _ (parse : List ℕ → GetHostRequest) (serialize : GetHostResponse → List ℕ) (left_over : ℤ)
    (h_info : HostInfo) where
  -- The server that registers last is found for a request.
  handlers_of-start_udp_servers :
      (order : List ℕ) (k : ℕ) (m : HandlerMap Bound)
      → handlers_of true parse serialize left_over h_info
          (start_udp_servers (order ++ k ∷ []) m)
          id_get_host_request
        ≡ some (run true parse serialize left_over h_info (get_host_of k))
  unfolding handlers_of run_udp_server register_handler get_handler
  handlers_of-start_udp_servers order k m =
      ap (λ n. handlers_of true parse serialize left_over h_info n id_get_host_request)
        (start_udp_servers-append order k m)

  -- What is said to a request.
  abbrev pub says : GetHostRequest → LarsRetCode → HostInfo → GetHostResponse
  says req ret h = record {
    seq = req.seq;
    modid = req.modid;
    cmdid = req.cmdid;
    retcode = ret_code ret;
    host = chosen ret h;
  }

  abbrev pub reply_to : GetHostRequest → LarsRetCode → HostInfo → Message
  reply_to req ret h = record { id = id_get_host_response; body = serialize (says req ret h) }

  -- In whatever order the servers are started, each of them answers a request by one datagram to the
  -- address that it came from, with what the load balancers of the server that registered last say:
  -- these are changed by it, and those of the other servers are not. The request and its answer fit a
  -- buffer of 1024 bytes.
  pub do_read-start_udp_servers :
      (order : List ℕ) (k : ℕ) (m : HandlerMap Bound) (body : List ℕ) (from : ℕ) (buf : Memory)
      (s : UdpServer RouteLbs) (ret : LarsRetCode) (h : HostInfo) (lb : RouteLb)
      → get_host left_over (parse body).modid (parse body).cmdid h_info (s.state k)
        ≡ ok (ret, h, lb)
      → 8 + length body ≤ buf_size
      → 8 + length (serialize (says (parse body) ret h)) ≤ buf_size
      → do_read
          (handlers_of true parse serialize left_over h_info
            (start_udp_servers (order ++ k ∷ []) m))
          (datagram from (encode (record { id = id_get_host_request; body = body })) ∷ [])
          buf
          s
        ≡ ok (record {
          peer_addr = from;
          sent = s.sent ++ (from, encode (reply_to (parse body) ret h)) ∷ [];
          state = set_route_lb s.state k lb;
        })
  unfolding run get_host_handler
  do_read-start_udp_servers order k m body from buf s ret h lb e small small' =
      let f : Message = record { id = id_get_host_request; body = body } in
      let hs =
        handlers_of true parse serialize left_over h_info (start_udp_servers (order ++ k ∷ []) m) in
      let t : UdpServer RouteLbs = record {
        peer_addr = from;
        sent = s.sent;
        state = set_route_lb s.state k lb;
      } in
      do_read-encode f small hs from buf s (omega arith)
      ∙ rw (
        handlers_of-start_udp_servers order k m,
        e,
        send-encode (reply_to (parse body) ret h) small' t,
      )
