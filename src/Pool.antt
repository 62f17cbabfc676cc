-- ===== src/Pool.antt =====
-- crates/pool: the operation pool, reputation, lifecycle status, validation, the chain watcher.
pub mod Entry
pub mod Ordered
pub mod Contents
pub mod Store
pub mod Represents
pub mod Refines
pub mod Atomic
pub mod Best
pub mod Sequence
pub mod History
pub mod Contains
pub mod Found
pub mod Concurrent
pub mod Reputation
pub mod Status
pub mod Validation
pub mod Watcher
