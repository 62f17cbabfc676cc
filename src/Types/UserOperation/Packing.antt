-- ===== src/Types/UserOperation/Packing.antt =====
-- The user operation, its on-chain form, and the conversions between the two
-- (crates/types/src/user_operation/v0_7.rs, `pack` and `unpack`).
use bunzo.Prelude.{
  ℕ, ◌-◌, List, [], ◌++◌, Option, none, some, leb, ltb, if◌then◌else◌, length, take, drop,
}
use bunzo.Prelude.Words.{u128_mod}
use bunzo.Types.UserOperation.Bytes.{to_be, of_be}

pub record UserOperation : Type 0 where
  pub sender : ℕ
  pub nonce : ℕ
  pub call_data : List ℕ
  pub call_gas_limit : ℕ
  pub verification_gas_limit : ℕ
  pub pre_verification_gas : ℕ
  pub max_fee_per_gas : ℕ
  pub max_priority_fee_per_gas : ℕ
  pub signature : List ℕ
  pub factory : Option ℕ
  pub factory_data : List ℕ
  pub paymaster : Option ℕ
  pub paymaster_verification_gas_limit : ℕ
  pub paymaster_post_op_gas_limit : ℕ
  pub paymaster_data : List ℕ
  pub entry_point : ℕ
  pub chain_id : ℕ
  pub hash : Option ℕ

pub record PackedUserOperation : Type 0 where
  pub sender : ℕ
  pub nonce : ℕ
  pub init_code : List ℕ
  pub call_data : List ℕ
  pub account_gas_limits : List ℕ
  pub pre_verification_gas : ℕ
  pub gas_fees : List ℕ
  pub paymaster_and_data : List ℕ
  pub signature : List ℕ

pub record UserOperationId : Type 0 where
  pub sender : ℕ
  pub nonce : ℕ

-- What the program takes from alloy: the ABI encoding of the packed operation, and Keccak-256,
-- whose digest is read as a number.
pub record Hasher : Type 0 where
  pub abi_encode : PackedUserOperation → List ℕ
  pub keccak256 : List ℕ → ℕ

unfoldable pub pack_u128_pair : ℕ → ℕ → List ℕ
pack_u128_pair high low = to_be 16 high ++ to_be 16 low

unfoldable pub unpack_u128_pair : List ℕ → ℕ × ℕ
unpack_u128_pair bytes = (of_be (take 16 bytes), of_be (drop 16 bytes))

unfoldable pub pack_init_code : Option ℕ → List ℕ → List ℕ
pack_init_code none data_bytes = []
pack_init_code (some factory) data_bytes = to_be 20 factory ++ data_bytes

unfoldable pub pack_paymaster : Option ℕ → ℕ → ℕ → List ℕ → List ℕ
pack_paymaster none verification_gas post_op_gas data_bytes = []
pack_paymaster (some paymaster) verification_gas post_op_gas data_bytes =
    to_be 20 paymaster ++ (to_be 16 verification_gas ++ (to_be 16 post_op_gas ++ data_bytes))

unfoldable pub pack : UserOperation → PackedUserOperation
pack uo = record {
  sender = uo.sender;
  nonce = uo.nonce;
  init_code = pack_init_code uo.factory uo.factory_data;
  call_data = uo.call_data;
  account_gas_limits = pack_u128_pair uo.verification_gas_limit uo.call_gas_limit;
  pre_verification_gas = uo.pre_verification_gas;
  gas_fees = pack_u128_pair uo.max_priority_fee_per_gas uo.max_fee_per_gas;
  paymaster_and_data =
      pack_paymaster uo.paymaster uo.paymaster_verification_gas_limit uo.paymaster_post_op_gas_limit
        uo.paymaster_data;
  signature = uo.signature;
}

unfoldable pub unpack_init_code : List ℕ → Option ℕ × List ℕ
unpack_init_code code =
    if leb 20 (length code) then (some (of_be (take 20 code)), drop 20 code) else (none, [])

unfoldable pub unpack_paymaster : List ℕ → Option ℕ × ℕ × ℕ × List ℕ
unpack_paymaster bytes =
    if leb 52 (length bytes)
    then (
      some (of_be (take 20 bytes)),
      of_be (take 16 (drop 20 bytes)),
      of_be (take 16 (drop 16 (drop 20 bytes))),
      drop 16 (drop 16 (drop 20 bytes)),
    )
    else (none, 0, 0, [])

-- `u128::try_from(x).unwrap_or(u128::MAX)`.
unfoldable pub saturate_u128 : ℕ → ℕ
saturate_u128 x = if ltb x u128_mod then x else u128_mod - 1

-- `unpack` up to the call of `UserOperation::new`, whose last act is to cache the hash.
unfoldable pub unpack_fields : PackedUserOperation → ℕ → ℕ → UserOperation
unpack_fields packed entry_point chain_id =
    let (verification_gas_limit, call_gas_limit) = unpack_u128_pair packed.account_gas_limits in
    let (max_priority_fee_per_gas, max_fee_per_gas) = unpack_u128_pair packed.gas_fees in
    let (factory, factory_data) = unpack_init_code packed.init_code in
    let (paymaster, pm_verification_gas, pm_post_op_gas, paymaster_data) =
      unpack_paymaster packed.paymaster_and_data in
    record {
      sender = packed.sender;
      nonce = packed.nonce;
      call_data = packed.call_data;
      call_gas_limit = call_gas_limit;
      verification_gas_limit = verification_gas_limit;
      pre_verification_gas = saturate_u128 packed.pre_verification_gas;
      max_fee_per_gas = max_fee_per_gas;
      max_priority_fee_per_gas = max_priority_fee_per_gas;
      signature = packed.signature;
      factory = factory;
      factory_data = factory_data;
      paymaster = paymaster;
      paymaster_verification_gas_limit = pm_verification_gas;
      paymaster_post_op_gas_limit = pm_post_op_gas;
      paymaster_data = paymaster_data;
      entry_point = entry_point;
      chain_id = chain_id;
      hash = none;
    }
