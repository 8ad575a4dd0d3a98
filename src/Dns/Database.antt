-- ===== src/Dns/Database.antt =====
-- route::connect_db (lars_dns/src/dns_route.cc).
use lars_study.Prelude.{Bool, if◌then◌else◌, to_int, to_u32, codes, Outcome, ok, stop, exit_failure}
use lars_study.Config.Load.{ConfigFile}
use lars_study.Config.Values.{get_number}
use lars_study.Config.Database.{DbSettings, db_settings}

-- What it has connected with. `connected` is whether mysql_real_connect succeeds.
unfoldable pub connect_db : (DbSettings → Bool) → ConfigFile → Outcome DbSettings
connect_db connected c =
    let db_port = to_int (get_number c (codes "mysql") (codes "db_port") 3306) in
    let settings = db_settings c (to_u32 db_port) in
    if connected settings then ok settings else stop exit_failure
