-- ===== src/Net.antt =====
-- The reactor: messages, the event loop, and the two ends of a TCP connection.
pub mod Message
pub mod Frames
pub mod Handlers
pub mod Socket
pub mod EventLoop
pub mod TaskQueue
pub mod ThreadPool
pub mod LoopThread
pub mod TcpConn
pub mod TcpServer
pub mod Udp
pub mod TcpClient
pub mod Link
