-- ===== src/Dns.antt =====
-- lars_dns: who is told of which hosts.
pub mod Key
pub mod Subscribe
pub mod Route
pub mod Changes
pub mod Server
pub mod Database
