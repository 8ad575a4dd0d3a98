-- ===== src/Reporter/Store.antt =====
-- store_reporter (lars_reporter/src/store_report.cc): the statements that a report is written by.
pub mod Size
use lars_study.Prelude.{
  ℕ, suc, ◌-◌, Bool, true, false, List, [], ◌∷◌, ◌++◌, ℤ, pos, negsuc, to_u32, take, map, Str,
  codes, decimal, print_int,
}

-- lars::HostCallResult
pub record HostCallResult : Type 0 where
  pub ip : ℤ
  pub port : ℤ
  pub succ : ℕ
  pub err : ℕ
  pub overload : Bool

-- lars::ReportStatusRequest
pub record ReportStatusRequest : Type 0 where
  pub modid : ℤ
  pub cmdid : ℤ
  pub caller : ℤ
  pub results : List HostCallResult
  pub ts : ℕ

-- A part of a format with its argument: text, %u or %d.
pub data Piece : Type 0 where
  text : Str → Piece
  unsigned : ℕ → Piece
  signed : ℤ → Piece

abbrev pub print_piece : Piece → Str
print_piece (text s) = s
print_piece (unsigned n) = decimal n
print_piece (signed z) = print_int z

unfoldable pub print : List Piece → Str
print [] = []
print (p ∷ ps) = print_piece p ++ print ps

-- snprintf into `size` bytes: the last byte ends the text.
abbrev pub sql_size : ℕ
sql_size = 1024

pub snprintf : List Piece → Str
unfolding print print_int
snprintf ps = take (sql_size - 1) (print ps)

abbrev pub overload_flag : Bool → ℤ
overload_flag true = pos 1
overload_flag false = pos 0

abbrev separated : List Piece → List Piece
separated [] = []
separated (p ∷ []) = p ∷ []
separated (p ∷ ps) = p ∷ text (codes ", ") ∷ separated ps

-- The format of the statement and its arguments.
abbrev pub insert_format : ReportStatusRequest → HostCallResult → List Piece
insert_format req result =
    let overload = overload_flag result.overload in
    text (codes "INSERT INTO ServerCallStatus")
      ∷ text (codes "(modid, cmdid, ip, port, caller, succ_cnt, err_cnt, ts, overload) ")
      ∷ text (codes "VALUES (")
      ∷ separated (
          signed req.modid
          ∷ signed req.cmdid
          ∷ unsigned (to_u32 result.ip)
          ∷ unsigned (to_u32 result.port)
          ∷ unsigned (to_u32 req.caller)
          ∷ unsigned result.succ
          ∷ unsigned result.err
          ∷ unsigned req.ts
          ∷ signed overload
          ∷ [])
    ++ text (codes ") ON DUPLICATE KEY ")
      ∷ text (codes "UPDATE succ_cnt = ")
      ∷ unsigned result.succ
      ∷ text (codes ", err_cnt = ")
      ∷ unsigned result.err
      ∷ text (codes ", ts = ")
      ∷ unsigned req.ts
      ∷ text (codes ", overload = ")
      ∷ signed overload
      ∷ []

store_results : ReportStatusRequest → List HostCallResult → List Str
store_results req [] = []
store_results req (result ∷ results) =
    snprintf (insert_format req result) ∷ store_results req results

-- store: the statements that the database is sent; one that fails is only reported.
pub store : ReportStatusRequest → List Str
unfolding store_results snprintf
store req = store_results req req.results
