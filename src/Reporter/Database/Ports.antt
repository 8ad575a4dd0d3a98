-- ===== src/Reporter/Database/Ports.antt =====
-- Which port lars_reporter finds its database at.
use lars_study.Prelude.{
  ℕ, ◌+◌, ◌<◌, ◌≤◌, ◌≡◌, ◌∙◌, sym, ap, Bool, if◌then◌else◌, arith, to_int, to_u32, codes, Outcome,
  ok, stop, exit_failure, ltb, lt→ltb, le→ltb,
}
use lars_study.Config.Load.{ConfigFile}
use lars_study.Config.Values.{get_number}
use lars_study.Config.Database.{DbSettings, db_settings, to_short}
use lars_study.Dns.Database.{connect_db}
use lars_study.Reporter.Database.{store_reporter}

-- The port that a program passes on, where its settings say `n`.
passed_lem : (n : ℕ) → n < 65536 → to_u32 (to_short n) ≡ (if ltb n 32768 then n else n + 4294901760)
unfolding to_u32 to_short
passed_lem n h = ground arith

kept_lem : (n : ℕ) → n < 65536 → to_u32 (to_int n) ≡ n
unfolding to_u32 to_int
kept_lem n h = ground arith

-- The outcome of connecting with the port `port`.
abbrev pub connects : (DbSettings → Bool) → ConfigFile → ℕ → Outcome DbSettings
connects connected c port =
    let settings = db_settings c port in
    if connected settings then ok settings else stop exit_failure

-- Where the settings give a port below 65536, lars_dns connects to it. lars_reporter connects as lars_dns
-- does where the port is below 32768, and from 32768 on to the port and 4294901760 more.
pub store_reporter-connect_db :
    (connected : DbSettings → Bool) (c : ConfigFile) (n : ℕ)
    → get_number c (codes "mysql") (codes "db_port") 3306 ≡ n
    → n < 65536
    → (connect_db connected c ≡ connects connected c n)
      × (n < 32768 → store_reporter connected c ≡ connect_db connected c)
      × (32768 ≤ n → store_reporter connected c ≡ connects connected c (n + 4294901760))
unfolding connect_db store_reporter
store_reporter-connect_db connected c n e h =
    let kept : connect_db connected c ≡ connects connected c n =
      ap (connects connected c) (ap (λ k. to_u32 (to_int k)) e ∙ kept_lem n h) in
    let passed : store_reporter connected c ≡ connects connected c (to_u32 (to_short n)) =
      ap (λ k. connects connected c (to_u32 (to_short k))) e in
    (
      kept,
      λ small.
          passed
          ∙ ap (connects connected c) (passed_lem n h ∙ rw (lt→ltb n 32768 small))
          ∙ sym kept,
      λ large. passed ∙ ap (connects connected c) (passed_lem n h ∙ rw (le→ltb n 32768 large)),
    )
