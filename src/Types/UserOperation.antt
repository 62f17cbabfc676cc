-- ===== src/Types/UserOperation.antt =====
-- crates/types/src/user_operation/mod.rs and v0_7.rs: the v0.7 user operation. Addresses, hashes
-- and U256 values are numbers, bytes are numbers below 256. Keccak and the ABI encoding are
-- parameters, the record `Hasher`.
pub mod Bytes
pub mod Packing
pub mod Roundtrip
pub mod Nonce
pub mod Identity
pub mod OptionalGas
pub mod Variant
use Bytes.{to_be}
use Packing.{UserOperation, PackedUserOperation, UserOperationId, pack, unpack_fields, Hasher}
use bunzo.Prelude.{ℕ, ◌+◌, ◌==◌, ◌++◌, List, [], ◌∷◌, Option, none, some, if◌then◌else◌, unwrap_or}
use bunzo.Prelude.Words.{add_u128, mul_u128, add_u64}
use bunzo.Types.Gas.{GasFees}
use bunzo.Types.Gas
use bunzo.Types.Entity.{Entity, EntityType, account, paymaster, factory, aggregator, option_iter}

unfoldable pub id : UserOperation → UserOperationId
id uo = record { sender = uo.sender; nonce = uo.nonce }

unfoldable pub gas_fees : UserOperation → GasFees
gas_fees uo = record {
  max_fee_per_gas = uo.max_fee_per_gas;
  max_priority_fee_per_gas = uo.max_priority_fee_per_gas;
}

unfoldable pub effective_gas_price : UserOperation → ℕ → ℕ
unfolding gas_fees
effective_gas_price uo base_fee = Gas.effective_gas_price (gas_fees uo) base_fee

unfoldable pub total_gas_limit : UserOperation → ℕ
total_gas_limit uo =
    add_u128
      (add_u128
        (add_u128 (add_u128 uo.pre_verification_gas uo.verification_gas_limit) uo.call_gas_limit)
        uo.paymaster_verification_gas_limit)
      uo.paymaster_post_op_gas_limit

unfoldable pub max_gas_cost : UserOperation → ℕ
unfolding total_gas_limit
max_gas_cost uo = mul_u128 (total_gas_limit uo) uo.max_fee_per_gas

unfoldable pub entities : UserOperation → List Entity
entities uo =
    record { kind = account; address = uo.sender }
    ∷ (option_iter factory_entity ++ option_iter paymaster_entity)
  where
    factory_entity : Option Entity
    factory_entity = elim uo.factory [
      | none ↦ none
      | some a ↦ some (record { kind = factory; address = a })
    ]

    paymaster_entity : Option Entity
    paymaster_entity = elim uo.paymaster [
      | none ↦ none
      | some a ↦ some (record { kind = paymaster; address = a })
    ]

module _ (env : Hasher) where
  open env use {abi_encode, keccak256}

  -- keccak256(keccak256(abi(op without its signature)) ++ entry point ++ chain id).
  unfoldable pub compute_hash : UserOperation → ℕ
  compute_hash uo =
      let inner_hash = keccak256 (abi_encode (record (pack uo) { signature = [] })) in
      keccak256 (to_be 32 inner_hash ++ (to_be 20 uo.entry_point ++ to_be 32 uo.chain_id))

  unfoldable pub hash : UserOperation → ℕ
  hash uo = unwrap_or uo.hash (compute_hash uo)

  -- `UserOperation::new` computes the hash once and caches it.
  unfoldable pub with_hash : UserOperation → UserOperation
  with_hash uo = record uo { hash = some (compute_hash uo) }

  unfoldable pub set_context : UserOperation → ℕ → ℕ → UserOperation
  unfolding with_hash
  set_context uo entry_point chain_id =
      with_hash (record uo { entry_point = entry_point; chain_id = chain_id })

  calldata_cost : ℕ → ℕ → ℕ → List ℕ → ℕ
  calldata_cost zero_cost non_zero_cost acc [] = acc
  calldata_cost zero_cost non_zero_cost acc (byte ∷ bytes) =
      calldata_cost zero_cost non_zero_cost
        (if byte == 0 then add_u64 acc zero_cost else add_u64 acc non_zero_cost) bytes

  unfoldable pub calldata_gas_cost : UserOperation → ℕ → ℕ → ℕ
  unfolding calldata_cost
  calldata_gas_cost uo zero_byte_cost non_zero_byte_cost =
      calldata_cost zero_byte_cost non_zero_byte_cost 0 (abi_encode (pack uo))

  unfoldable pub unpack : PackedUserOperation → ℕ → ℕ → UserOperation
  unfolding with_hash
  unpack packed entry_point chain_id = with_hash (unpack_fields packed entry_point chain_id)
