-- ===== src/Agent/DnsClient/Unanswered.antt =====
-- What the dns service makes of a pull.
use lars_study.Prelude.{
  ℕ, ◌+◌, ◌≤◌, ◌<◌, ◌≡◌, refl, Bool, List, [], ◌++◌, some, arith, pos, length, Yields,
}
use lars_study.Buffer.Pool
use lars_study.Buffer.Pool.{Pool}
use lars_study.Buffer.Pool.Stock.{IsStocked, IsStocked-le}
use lars_study.Buffer.ReactorBuf.{Ready, bytes_of, capacity_of}
use lars_study.Buffer.InputBuf.{ReadResult, answer}
use lars_study.Net.Message.{Message, msg_len, encode, IsSendable}
use lars_study.Net.Frames.{Inbound, call}
use lars_study.Net.TcpConn.{Conn, handle_read}
use lars_study.Net.TcpConn.Receiving.{handle_read_one}
use lars_study.Dns.Subscribe.{GetRouteResponse}
use lars_study.Dns.Route.{RouteMap}
use lars_study.Dns.Server.{GetRouteRequest, dns_handlers}
use lars_study.Dns.Server.Serving.{dns_handlers-none}
use lars_study.Agent.LoadBalance.{LoadBalance}
use lars_study.Agent.UdpServer.{GetHostRequest}
use lars_study.Agent.DnsClient.{pull_request}

-- The message of a pull.
abbrev pub pulling : (GetHostRequest → List ℕ) → LoadBalance → Message
pulling serialize lb =
    let (id, req_str) = pull_request serialize lb in record { id = id; body = req_str }

-- On a connection of the dns service, with a well-formed pool that has two free buffers in each
-- class, and a kernel that hands over as many bytes as it announced, which fit the largest block
-- with the buffer's: where the bytes that wait and come are a sendable pull of a load balancer and
-- fewer bytes than it has, the read returns with the connection as it was, so that nothing is
-- answered; the pull is gone from the input.
pub handle_read-pull_request :
    (parse : List ℕ → GetRouteRequest) (serialize : GetRouteResponse → List ℕ) (ctl : Bool)
    (m : RouteMap) (serialize_request : GetHostRequest → List ℕ) (lb : LoadBalance) (t : List ℕ)
    (stock : ℕ) (i : Inbound Conn) (read : ReadResult) (bs : List ℕ)
    → Ready i.ibuf
    → Pool.IsValid i.pool
    → IsStocked (2 + stock) i.pool
    → IsSendable (pulling serialize_request lb)
    → length t < msg_len (pulling serialize_request lb)
    → answer read ≡ some bs
    → 0 < length bs
    → bytes_of i.ibuf ++ bs ≡ encode (pulling serialize_request lb) ++ t
    → capacity_of i.ibuf + length bs ≤ Pool.m8m
    → Yields (handle_read (some (pos (length bs))) read (dns_handlers parse serialize ctl m) i) λ j.
      (j.rest ≡ i.rest)
      × Pool.IsValid j.pool
      × IsStocked stock j.pool
      × Ready j.ibuf
      × (bytes_of j.ibuf ≡ t)
unfolding pull_request
handle_read-pull_request parse serialize ctl m serialize_request lb t stock i read bs ready v s
      sendable short e came all fits =
    handle_read_one (dns_handlers parse serialize ctl m) 0 (λ ds c. c ≡ i.rest)
      (λ ds f. f.id ≡ pos 4)
      (record {
        handles = λ ds f p c left vp sp same asks.
            unfold call in
            rw (dns_handlers-none parse serialize ctl m f.id (rw asks refl))
              (vp, IsStocked-le left (0 + left) p (omega arith) sp, same);
      })
      [] (pulling serialize_request lb) t stock i read bs sendable short refl ready v
      (IsStocked-le _ _ i.pool (omega arith) s) refl e came all fits
