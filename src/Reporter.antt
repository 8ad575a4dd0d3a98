-- ===== src/Reporter.antt =====
-- lars_reporter: the results of calls that clients report, written to a database.
pub mod Store
pub mod Pool
pub mod Database
pub mod Server
mod Examples
