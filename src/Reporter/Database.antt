-- ===== src/Reporter/Database.antt =====
-- store_reporter::store_reporter (lars_reporter/src/store_report.cc).
pub mod Ports
use lars_study.Prelude.{Bool, if◌then◌else◌, to_u32, codes, Outcome, ok, stop, exit_failure}
use lars_study.Config.Load.{ConfigFile}
use lars_study.Config.Values.{get_number}
use lars_study.Config.Database.{DbSettings, db_settings, to_short}

-- What it has connected with; the port goes through a `short`. `connected` is whether mysql_real_connect
-- succeeds.
pub store_reporter : (DbSettings → Bool) → ConfigFile → Outcome DbSettings
store_reporter connected c =
    let db_port = to_short (get_number c (codes "mysql") (codes "db_port") 3306) in
    let settings = db_settings c (to_u32 db_port) in
    if connected settings then ok settings else stop exit_failure
