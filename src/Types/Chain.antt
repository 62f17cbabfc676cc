-- ===== src/Types/Chain.antt =====
-- crates/types/src/chain.rs: the parameters of a chain. The human-readable name and the gas
-- parameters that no code reads are left out.
use bunzo.Prelude.{ℕ, Bool, ◌==◌}

pub record ChainSpec : Type 0 where
  pub id : ℕ
  pub entry_point_v0_7 : ℕ
  pub max_transaction_size_bytes : ℕ
  pub transaction_intrinsic_gas : ℕ
  pub per_user_op_v0_7_gas : ℕ
  pub calldata_zero_byte_gas : ℕ
  pub calldata_non_zero_byte_gas : ℕ
  pub bundle_max_send_interval_millis : ℕ
  pub required_confirmations : ℕ
  pub max_bundle_size : ℕ
  pub max_pool_size : ℕ
  pub max_ops_per_sender : ℕ
  pub chain_history_size : ℕ
  pub min_max_priority_fee_per_gas : ℕ
  pub replacement_fee_bump_bps : ℕ

unfoldable pub is_entry_point : ChainSpec → ℕ → Bool
is_entry_point c address = address == c.entry_point_v0_7

abbrev pub mainnet : ChainSpec
mainnet = record {
  id = 1;
  entry_point_v0_7 = 0x0000000071727De22E5E9d8BAf0edAc6f37da032;
  max_transaction_size_bytes = 131_072;
  transaction_intrinsic_gas = 21_000;
  per_user_op_v0_7_gas = 19_500;
  calldata_zero_byte_gas = 4;
  calldata_non_zero_byte_gas = 16;
  bundle_max_send_interval_millis = 1_000;
  required_confirmations = 3;
  max_bundle_size = 16;
  max_pool_size = 4096;
  max_ops_per_sender = 4;
  chain_history_size = 128;
  min_max_priority_fee_per_gas = 100_000_000;
  replacement_fee_bump_bps = 1000;
}

abbrev pub dev : ChainSpec
dev = record mainnet {
  id = 31337;
  entry_point_v0_7 = 0;
  bundle_max_send_interval_millis = 100;
  required_confirmations = 1;
  chain_history_size = 64;
  min_max_priority_fee_per_gas = 0;
}
