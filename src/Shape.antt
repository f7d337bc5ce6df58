-- ===== src/Shape.antt =====
-- Result shaping: crates/ownpg-core/src/shape.rs.
pub mod Cells
pub mod Collector
pub mod Tests
