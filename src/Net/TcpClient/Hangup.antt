-- ===== src/Net/TcpClient/Hangup.antt =====
-- A server that goes away: EPOLLIN and EPOLLHUP are reported together.
use lars_study.Buffer.IoBuf.{IoBuf}
use lars_study.Buffer.Pool
use lars_study.Buffer.Pool.{Pool}
