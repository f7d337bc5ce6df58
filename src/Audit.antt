-- ===== src/Audit.antt =====
-- The audit log: crates/ownpg-core/src/audit.rs.
pub mod Chain
pub mod Entry
pub mod Disk
pub mod Family
pub mod Log
pub mod Retention
pub mod Sink
pub mod Sound
pub mod Tests
