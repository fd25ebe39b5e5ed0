-- ===== src/Cache.antt =====
-- The page cache of the storage engine, kobzar/src/q_engine/storage/idx_common.rs.
pub mod Ring
pub mod Store
pub mod Evict
pub mod Reach
pub mod Contents
pub mod Tests
