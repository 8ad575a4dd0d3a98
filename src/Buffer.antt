-- ===== src/Buffer.antt =====
-- The reactor's buffers.
pub mod Memory
pub mod IoBuf
pub mod Pool
pub mod ReactorBuf
pub mod InputBuf
pub mod OutputBuf
