-- ===== src/Types/UserOperation/Nonce.antt =====
-- The two-dimensional nonce (crates/types/src/user_operation/mod.rs, `UserOperationId`): the key is
-- the upper 192 bits, the sequence the lower 64.
use bunzo.Prelude.{ℕ, ◌+◌, ◌*◌, ◌/◌, ◌%◌, ◌^◌, ◌≡◌, arith}
use bunzo.Prelude.Words.{u64_mod}
use bunzo.Types.UserOperation.Packing.{UserOperationId}

unfoldable pub nonce_key : UserOperationId → ℕ
nonce_key id = id.nonce / 2 ^ 64

unfoldable pub nonce_sequence : UserOperationId → ℕ
nonce_sequence id = id.nonce % 2 ^ 64

-- Key and sequence determine the nonce.
pub nonce_parts : (id : UserOperationId) → nonce_key id * u64_mod + nonce_sequence id ≡ id.nonce
unfolding nonce_key nonce_sequence
nonce_parts id = omega arith
