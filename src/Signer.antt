-- ===== src/Signer.antt =====
-- The signers (crates/signer).
pub mod Manager
pub mod RoundRobin
pub mod Local
