-- ===== src/Api.antt =====
-- lars_client (api/cpp/lars_api/lars_api.h, api/cpp/lars_api/lars_api.cc): the call by which a program
-- asks the agent on its machine for a host.
pub mod Answers
pub mod Sockets
mod Examples
use lars_study.Prelude.{
  ℕ, zero, suc, exit_failure, ◌+◌, ◌-◌, ◌%◌, ◌/◌, Bool, ◌&&◌, ◌||◌, not, List, [], ◌∷◌, ◌++◌,
  Option, none, some, ◌==◌, ltb, leb, if◌then◌else◌, ℤ, pos, negsuc, eqb_ℤ, to_u32, u32_mod,
  int_bound, length, take, drop, Str, codes, decimal, Outcome, ok, stop, undefined, out_of_fuel,
  ◌>>=◌,
}
use lars_study.Net.Socket.{create_socket}
use lars_study.Net.Message.{message_header_size, encode_header}
use lars_study.Agent.UdpServer.{GetHostRequest, GetHostResponse, id_get_host_request}

-- `m_socks` has three sockets, one for each agent server. `ip` and `port` are the caller's variables.
pub record LarsClient : Type 0 where
  pub seqid : ℕ
  pub ip : Str
  pub port : ℤ

-- The sockets from the number `i` on, each with the port that it is connected to. `socket i` and
-- `connected i` are what `socket` and `connect` answer.
connect_socks : (ℕ → Option ℕ) → (ℕ → Bool) → ℕ → ℕ → Outcome (List (ℕ × ℕ))
connect_socks socket connected zero i = ok []
connect_socks socket connected (suc n) i =
    let rest = connect_socks socket connected n (suc i) in
    create_socket (socket i) >>= λ sockfd.
    if connected i then rest >>= (λ socks. ok ((sockfd, 8888 + i) ∷ socks)) else stop exit_failure

-- lars_client::lars_client: `m_socks`.
pub lars_client : (ℕ → Option ℕ) → (ℕ → Bool) → Outcome (List (ℕ × ℕ))
unfolding connect_socks
lars_client socket connected = connect_socks socket connected 3 0

-- What `recvfrom` answers: a datagram, or a negative number.
pub data RecvResult : Type 0 where
  datagram : List ℕ → RecvResult
  failed : RecvResult

-- lars::RET_SYSTEM_ERROR
abbrev pub ret_system_error : ℤ
ret_system_error = pos 2

abbrev pub read_size : ℕ
read_size = 2048

-- The sum of two `int`s as an integer.
abbrev pub sum : ℤ → ℤ → ℤ
sum (pos a) (pos b) = pos (a + b)
sum (pos a) (negsuc b) = if ltb b a then pos (a - suc b) else negsuc (b - a)
sum (negsuc a) (pos b) = if ltb a b then pos (b - suc a) else negsuc (a - b)
sum (negsuc a) (negsuc b) = negsuc (suc (a + b))

-- `(modid + cmdid) % 3`, with the sign of the sum. None where the sum overflows or the index is
-- negative.
index_of : ℤ → Option ℕ
index_of (pos n) = if ltb n int_bound then some (n % 3) else none
index_of (negsuc n) = if ltb n int_bound && suc n % 3 == 0 then some 0 else none

pub sock_index : ℤ → ℤ → Option ℕ
unfolding index_of
sock_index modid cmdid = index_of (sum modid cmdid)

-- `inet_ntoa` on an address in the byte order of the machine.
pub inet_ntoa : ℕ → Str
inet_ntoa a =
    decimal (a % 256)
    ++ b'.'
      ∷ (decimal (a / 256 % 256)
          ++ b'.' ∷ (decimal (a / 65536 % 256) ++ b'.' ∷ decimal (a / 16777216 % 256)))

-- What is done with a response that is not older than the request.
pub check_response : GetHostRequest → GetHostResponse → LarsClient → ℤ × LarsClient
unfolding inet_ntoa
check_response req resp c =
    if not (resp.seq == req.seq)
      || (not (eqb_ℤ resp.modid req.modid) || not (eqb_ℤ resp.cmdid req.cmdid))
    then (ret_system_error, c)
    else if eqb_ℤ resp.retcode (pos 0)
    then (resp.retcode, record c { ip = inet_ntoa (to_u32 resp.host.ip); port = resp.host.port })
    else (resp.retcode, c)

-- The datagram of a request.
pub request : (GetHostRequest → List ℕ) → GetHostRequest → List ℕ
request serialize req =
    let req_str = serialize req in
    encode_header id_get_host_request (message_header_size + length req_str) ++ req_str

-- protobuf's SerializeToString and ParseFromArray are arguments; the latter's result is never negative.
module _ (serialize : GetHostRequest → List ℕ) (parse : List ℕ → GetHostResponse) where
  -- The loop that receives; 0 bytes count as the end of the connection. Where the list ends nothing more
  -- comes, and the call waits for ever.
  pub receive : GetHostRequest → List RecvResult → LarsClient → Outcome (ℤ × LarsClient)
  unfolding check_response
  receive req [] c = stop out_of_fuel
  receive req (failed ∷ rs) c = ok (ret_system_error, c)
  receive req (datagram bs ∷ rs) c =
      let read_buf = take read_size bs in
      let resp = parse (drop message_header_size read_buf) in
      let more = receive req rs c in
      if length read_buf == 0
      then ok (ret_system_error, c)
      else if ltb (length read_buf) message_header_size
      then stop undefined
      else if ltb resp.seq req.seq
      then more
      else ok (check_response req resp c)

  -- get_host: the value returned, the client, and what is sent on which socket. `sent` is whether `sendto`
  -- takes it.
  pub get_host :
      Bool → List RecvResult → ℤ → ℤ → LarsClient → Outcome ((ℤ × LarsClient) × ℕ × List ℕ)
  unfolding sock_index request receive
  get_host sent rs modid cmdid c =
      let req : GetHostRequest = record { seq = c.seqid; modid = modid; cmdid = cmdid } in
      let c' = record c { seqid = suc c.seqid % u32_mod } in
      elim (sock_index modid cmdid) [
        | none ↦ stop undefined
        | some index ↦
            if sent
            then receive req rs c' >>= (λ r. ok (r, index, request serialize req))
            else ok ((ret_system_error, c'), index, request serialize req)
      ]
