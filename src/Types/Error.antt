-- ===== src/Types/Error.antt =====
-- crates/types/src/error.rs and crates/pool/src/error.rs: the errors that the modelled code
-- returns. A formatted message is a value of `Message`, which keeps the arguments of `format!`.
use Prim.Native.String.{String}
use bunzo.Prelude.{ℕ}
use bunzo.Types.Entity.{Entity}

pub data Field : Type 0 where
  verification_gas_limit max_fee_per_gas pre_verification_gas : Field

pub data Message : Type 0 where
  invalid_nonce_sequence : (expected sender key got : ℕ) → Message
  is_throttled : Entity → Message
  is_banned : Entity → Message

pub data ValidationError : Type 0 where
  invalid_sender : ℕ → ValidationError
  invalid_nonce : (expected got : ℕ) → ValidationError
  gas_too_low : Field → (value minimum : ℕ) → ValidationError
  gas_too_high : Field → (value maximum : ℕ) → ValidationError
  max_fee_too_low : (max_fee base_fee : ℕ) → ValidationError
  priority_fee_exceeds_max_fee : (priority max_fee : ℕ) → ValidationError
  paymaster_deposit_too_low : (paymaster : ℕ) → ValidationError
  call_data_too_large : (size max : ℕ) → ValidationError
  simulation_reverted invalid_signature : String → ValidationError
  forbidden_opcode forbidden_storage_access : String → ValidationError
  expired_or_not_due : (valid_after valid_until : ℕ) → ValidationError
  other : Message → ValidationError

-- `sender_full` is the one text that the code puts into `Other`.
pub data PoolError : Type 0 where
  already_known : ℕ → PoolError
  replacement_underpriced : (existing new : ℕ) → PoolError
  pool_full : (max_size : ℕ) → PoolError
  validation : ValidationError → PoolError
  entity_throttled : String → PoolError
  not_found : ℕ → PoolError
  sender_full : (sender sender_count max : ℕ) → PoolError
