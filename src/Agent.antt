-- ===== src/Agent.antt =====
-- lars_agent: which host a caller is told to use.
pub mod LoadBalance
pub mod RouteLb
pub mod UdpServer
pub mod Servers
pub mod DnsClient
pub mod Main
