-- ===== src/Api/Examples.antt =====
-- A program that asks for a host of module 1, command 2.
use lars_study.Prelude.{
  ◌+◌, ℕ, zero, suc, ◌≡◌, refl, List, [], ◌∷◌, ◌++◌, arith, ℤ, pos, negsuc, codes,
}
use lars_study.Agent.LoadBalance.{HostInfo, host_info}
use lars_study.Agent.UdpServer.{GetHostRequest, GetHostResponse}
use lars_study.Api.{LarsClient, datagram}
use lars_study.Api.Answers.{response_of, given, receive_answer, Explains, receive-Explains}

-- Two numbers for an integer.
abbrev sign : ℤ → ℕ
sign (pos n) = 0
sign (negsuc n) = 1

abbrev size : ℤ → ℕ
size (pos n) = n
size (negsuc n) = n

abbrev integer : ℕ → ℕ → ℤ
integer zero n = pos n
integer (suc k) n = negsuc n

integer_lem : (z : ℤ) → integer (sign z) (size z) ≡ z
integer_lem (pos n) = refl
integer_lem (negsuc n) = refl

abbrev write_request : GetHostRequest → List ℕ
write_request r = r.seq ∷ sign r.modid ∷ size r.modid ∷ sign r.cmdid ∷ size r.cmdid ∷ []

abbrev read_request : List ℕ → GetHostRequest
read_request (seq ∷ s ∷ m ∷ t ∷ c ∷ l) = record {
  seq = seq;
  modid = integer s m;
  cmdid = integer t c;
}
read_request l = record { seq = 0; modid = pos 0; cmdid = pos 0 }

abbrev write_response : GetHostResponse → List ℕ
write_response r =
    r.seq
    ∷ sign r.modid
    ∷ size r.modid
    ∷ sign r.cmdid
    ∷ size r.cmdid
    ∷ sign r.retcode
    ∷ size r.retcode
    ∷ sign r.host.ip
    ∷ size r.host.ip
    ∷ sign r.host.port
    ∷ size r.host.port
    ∷ []

abbrev read_response : List ℕ → GetHostResponse
read_response (seq ∷ s ∷ m ∷ t ∷ c ∷ u ∷ r ∷ v ∷ i ∷ w ∷ p ∷ l) = record {
  seq = seq;
  modid = integer s m;
  cmdid = integer t c;
  retcode = integer u r;
  host = record { ip = integer v i; port = integer w p };
}
read_response l = record {
  seq = 0;
  modid = pos 0;
  cmdid = pos 0;
  retcode = pos 0;
  host = record { ip = pos 0; port = pos 0 };
}

request_reads : (r : GetHostRequest) → read_request (write_request r) ≡ r
request_reads r = rw (integer_lem r.modid, integer_lem r.cmdid)

response_reads : (r : GetHostResponse) → read_response (write_response r) ≡ r
response_reads r = rw (
  integer_lem r.modid,
  integer_lem r.cmdid,
  integer_lem r.retcode,
  integer_lem r.host.ip,
  integer_lem r.host.port,
)

abbrev asking : LarsClient
asking = record { seqid = 7; ip = []; port = pos 0 }

abbrev req : GetHostRequest
req = record { seq = 7; modid = pos 1; cmdid = pos 2 }

-- An answer to the request before this one, and its own.
abbrev late : List ℕ
late =
    codes "........"
    ++ write_response (record {
      seq = 6;
      modid = pos 1;
      cmdid = pos 2;
      retcode = pos 3;
      host = record { ip = pos 0; port = pos 0 };
    })

abbrev found : List ℕ
found =
    codes "........"
    ++ write_response (record {
      seq = 7;
      modid = pos 1;
      cmdid = pos 2;
      retcode = pos 0;
      host = record { ip = pos 16777343; port = pos 7777 };
    })

receive-Explains_example :
    Explains write_request read_response req
      (datagram found ∷ [])
      asking
      (pos 0, given (response_of write_request read_response found) asking)
receive-Explains_example =
    receive-Explains write_request read_response req (datagram found ∷ []) asking
      (pos 0, given (response_of write_request read_response found) asking)
      (receive_answer write_request read_response req [] found [] asking tt (omega arith)
        (refl, refl, refl))

abbrev unknown : HostInfo
unknown = host_info 0 0 0

-- The sockets are the descriptors 3, 4 and 5.
abbrev sockets : List (ℕ × ℕ)
sockets = (3, 8888 + 0) ∷ (4, 8888 + 1) ∷ (5, 8888 + 2) ∷ []
