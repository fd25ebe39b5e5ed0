-- ===== src/Engine.antt =====
-- The schema that the query engine keeps, kobzar/src/q_engine.rs and ffi.rs.
pub mod Ident
pub mod Structs
pub mod Registry
pub mod Db
pub mod History
mod Tests
