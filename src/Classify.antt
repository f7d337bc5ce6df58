-- ===== src/Classify.antt =====
-- The statement classifier: crates/ownpg-core/src/classify.rs.
pub mod Kinds
pub mod Names
pub mod Rows
pub mod Walk
pub mod Cascade
pub mod Statement
pub mod Authorize
pub mod Safety
