-- ===== src/Heap.antt =====
-- The heap and BLOB files, kobzar/src/q_engine/storage/heap.rs. The files of the operating system and the
-- buffers around them are parameters with the laws that are documented: a buffered reader has bytes that it
-- has read ahead, and `get_mut` reaches the file below them.
pub mod File
pub mod Memory
pub mod Blob
pub mod Read
pub mod Write
pub mod Steps
pub mod Trip
pub mod Stale
mod Tests
