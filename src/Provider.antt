-- ===== src/Provider.antt =====
-- The access to the chain (crates/provider). Its own logic is the gas oracle.
pub mod Traits
pub mod Contracts
pub mod Revert
pub mod EntryPoint
pub mod BundleHandler
pub mod Evm
pub mod GasOracle
