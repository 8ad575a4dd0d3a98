-- ===== src/Reporter/Store/Size.antt =====
-- The statements fit their buffer.
use lars_study.Prelude.{
  ℕ, suc, ◌+◌, ◌≤◌, ◌<◌, ◌≡◌, refl, Bool, true, false, List, [], ◌∷◌, All, arith, pos, negsuc,
  to_u32-lt, u32_mod, IsInt, length, length-append, take_all, map, length-decimal, power_of_ten,
  print_int,
}
use lars_study.Reporter.Store.{
  HostCallResult, ReportStatusRequest, Piece, text, unsigned, signed, print_piece, print, snprintf,
  overload_flag, insert_format, store_results, store,
}

-- A number is no wider than its type.
abbrev pub Fits : Piece → Type 0
Fits (text s) = Unit {0}
Fits (unsigned n) = n < u32_mod
Fits (signed z) = IsInt z

abbrev widest : Piece → ℕ
widest (text s) = length s
widest (unsigned n) = 10
widest (signed z) = 11

abbrev widest_all : List Piece → ℕ
widest_all [] = 0
widest_all (p ∷ ps) = widest p + widest_all ps

length-print_piece : (p : Piece) → Fits p → length (print_piece p) ≤ widest p
unfolding print_int power_of_ten
length-print_piece (text s) h = omega arith
length-print_piece (unsigned n) h = length-decimal 9 n (omega arith)
length-print_piece (signed (pos n)) h = omega (arith, length-decimal 9 n (omega arith))
length-print_piece (signed (negsuc n)) h = omega (arith, length-decimal 9 (suc n) (omega arith))

length-print : (ps : List Piece) → All Fits ps → length (print ps) ≤ widest_all ps
unfolding print
length-print [] h = omega arith
length-print (p ∷ ps) h =
    omega (
      arith,
      length-append (print_piece p) (print ps),
      length-print_piece p h.0,
      length-print ps h.1,
    )

-- The fields of a report hold what their types hold.
abbrev pub IsReport : ReportStatusRequest → Type 0
IsReport req = IsInt req.modid × IsInt req.cmdid × (req.ts < u32_mod)

abbrev pub IsResult : HostCallResult → Type 0
IsResult r = (r.succ < u32_mod) × (r.err < u32_mod)

flag-IsInt : (b : Bool) → IsInt (overload_flag b)
flag-IsInt true = omega arith
flag-IsInt false = omega arith

insert_format-Fits :
    (req : ReportStatusRequest) (r : HostCallResult)
    → IsReport req
    → IsResult r
    → All Fits (insert_format req r)
insert_format-Fits req r h k =
    let ip = to_u32-lt r.ip in
    let port = to_u32-lt r.port in
    let caller = to_u32-lt req.caller in let flag = flag-IsInt r.overload in ground arith

snprintf_whole :
    (req : ReportStatusRequest) (r : HostCallResult)
    → IsReport req
    → IsResult r
    → snprintf (insert_format req r) ≡ print (insert_format req r)
unfolding snprintf
snprintf_whole req r h k =
    take_all 1023 (print (insert_format req r))
      (omega (arith, length-print (insert_format req r) (insert_format-Fits req r h k)))

store_results_whole :
    (req : ReportStatusRequest) (rs : List HostCallResult)
    → IsReport req
    → All IsResult rs
    → store_results req rs ≡ map (λ r. print (insert_format req r)) rs
unfolding store_results
store_results_whole req [] h k = refl
store_results_whole req (r ∷ rs) h k =
    rw (snprintf_whole req r h k.0, store_results_whole req rs h k.1)

-- Whatever a report holds, its statements fit the 1024 bytes of their buffer: one is sent for each result,
-- in order, and none is cut.
pub store_whole :
    (req : ReportStatusRequest)
    → IsReport req
    → All IsResult req.results
    → store req ≡ map (λ r. print (insert_format req r)) req.results
unfolding store
store_whole req h k = store_results_whole req req.results h k
