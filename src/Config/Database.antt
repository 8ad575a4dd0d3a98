-- ===== src/Config/Database.antt =====
-- What lars_dns and lars_reporter connect to MySQL with.
use lars_study.Prelude.{ℕ, ◌-◌, ◌%◌, ltb, if◌then◌else◌, ℤ, pos, negsuc, Str, codes}
use lars_study.Config.Load.{ConfigFile, get_string}

-- The arguments of mysql_real_connect; the port is an `unsigned int` there.
pub record DbSettings : Type 0 where
  pub host : Str
  pub user : Str
  pub passwd : Str
  pub name : Str
  pub port : ℕ

-- The texts, which both programs read alike.
abbrev pub db_settings : ConfigFile → ℕ → DbSettings
db_settings c port = record {
  host = get_string c (codes "mysql") (codes "db_host") (codes "127.0.0.1");
  user = get_string c (codes "mysql") (codes "db_user") (codes "root");
  passwd = get_string c (codes "mysql") (codes "db_passwd") (codes "Wsq5201314.");
  name = get_string c (codes "mysql") (codes "db_name") (codes "lars_dns");
  port = port;
}

-- The conversion to `short`.
unfoldable pub to_short : ℕ → ℤ
to_short n = let m = n % 65536 in if ltb m 32768 then pos m else negsuc (65535 - m)
