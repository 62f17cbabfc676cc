-- ===== src/Builder.antt =====
-- crates/builder: the transaction tracker, the conflict detector, the submission strategies, the
-- bundle proposer and the state machine of the bundler.
pub mod Conflict
pub mod Tracker
pub mod Strategy
pub mod Proposer
pub mod Task
