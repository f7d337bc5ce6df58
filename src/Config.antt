-- ===== src/Config.antt =====
-- The settings that decide what may run: crates/ownpg-core/src/config/mod.rs.
pub mod Mode
pub mod Failure
pub mod Groups
