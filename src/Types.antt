-- ===== src/Types.antt =====
-- crates/types: the data types that every other crate uses.
pub mod Gas
pub mod Entity
pub mod Chain
pub mod Error
pub mod Validation
pub mod UserOperation
