-- ===== src/Engine.antt =====
-- The database engine: crates/ownpg-core/src/engine.rs.
pub mod Commit
pub mod Handles
pub mod Lane
pub mod Begin
pub mod Savepoints
