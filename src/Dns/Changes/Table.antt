-- ===== src/Dns/Changes/Table.antt =====
-- The table RouteChange, as route::load_changes and route::remove_changes read it and clear it
-- (lars_dns/src/dns_route.cc). MySQL is an argument.
pub mod Keeping
mod Examples
use lars_study.Prelude.{
  ℕ, pos, eqb_ℤ, if◌then◌else◌, ◌-◌, Bool, true, false, List, ℤ, take, Str, codes, print_int, ◌++◌,
}
use lars_study.Dns.Route.{Answer, Row, Route, Tick, load_version, load_changes}
use lars_study.Dns.Changes.{Service, Sent, round}

-- The size that `snprintf` is given for `m_sql`.
abbrev pub sql_size : ℕ
sql_size = 1000

pub select_changes : ℤ → Str
select_changes version = take (sql_size - 1) (
    codes "SELECT modid,cmdid FROM RouteChange WHERE version <= "
    ++ (print_int version ++ codes ";"))

pub delete_changes : Bool → ℤ → Str
delete_changes false version =
    take (sql_size - 1)
      (codes "DELETE FROM RouteChange WHERE version <= " ++ (print_int version ++ codes ";"))
delete_changes true version = take (sql_size - 1) (codes "DELETE FROM RouteChange;")

-- `query` is what a statement that selects answers on a database, `execute` what another leaves of it.
module _ {D : Type 0} (query : Str → D → Answer (ℤ × ℤ)) (execute : Str → D → D) where
  -- load_changes, for the list that it appends to.
  pub load_changes_of : ℤ → D → List ℕ → List ℕ
  load_changes_of version d change_list =
      load_changes (query (select_changes version) d) change_list

  -- remove_changes, whose statement may fail.
  pub remove_changes : Bool → ℤ → D → D
  remove_changes remove_all version d = execute (delete_changes remove_all version) d

  -- What check_route_changes does before its loop.
  pub clear_changes : ℤ → D → D
  clear_changes m_version d = remove_changes true m_version d

  -- A round of its loop at the time `now`, with the loops that publish: what they send, the service, and
  -- the database. It is `d` when the changes are read and `e` when they are deleted; others may write to
  -- it in between.
  pub round_on : ℕ → Answer ℤ → Answer Row → D → D → Service → List Sent × Service × D
  round_on now version_row route_rows d e s =
      let (ret, known) = load_version version_row s.route in
      let t : Tick = record {
        current_time = now;
        version_row = version_row;
        route_rows = route_rows;
        change_rows = query (select_changes known.version) d;
      } in
      let (sents, s') = round t s in
      (sents, s', if eqb_ℤ ret (pos 1) then remove_changes false s'.route.version e else e)
