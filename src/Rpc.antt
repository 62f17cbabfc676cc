-- ===== src/Rpc.antt =====
-- The JSON-RPC methods of the `eth` namespace (crates/rpc).
pub mod Eth
pub mod Submit
pub mod Estimate
pub mod Receipt
pub mod Server
