-- ===== src/Wal.antt =====
-- The write-ahead log, kobzar/src/q_engine/storage/wal.rs.
pub mod Entry
pub mod Payload
pub mod Reader
pub mod Frame
pub mod Names
pub mod Segments
mod Tests
