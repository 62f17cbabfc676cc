-- ===== src/Types/UserOperation/OptionalGas.antt =====
-- `UserOperationOptionalGas` (crates/types/src/user_operation/v0_7.rs): the operation whose gas is
-- to be estimated.
use bunzo.Prelude.{ℕ, List, Option, none, unwrap_or}
use bunzo.Types.UserOperation.Packing.{UserOperation, Hasher}
use bunzo.Types.UserOperation.{with_hash}

pub record UserOperationOptionalGas : Type 0 where
  pub sender : ℕ
  pub nonce : ℕ
  pub call_data : List ℕ
  pub signature : List ℕ
  pub factory : Option ℕ
  pub factory_data : List ℕ
  pub paymaster : Option ℕ
  pub paymaster_data : List ℕ
  pub call_gas_limit : Option ℕ
  pub verification_gas_limit : Option ℕ
  pub pre_verification_gas : Option ℕ
  pub max_fee_per_gas : Option ℕ
  pub max_priority_fee_per_gas : Option ℕ
  pub paymaster_verification_gas_limit : Option ℕ
  pub paymaster_post_op_gas_limit : Option ℕ

unfoldable pub into_user_operation :
    Hasher
    → UserOperationOptionalGas
    → (entry_point chain_id max_verification_gas max_call_gas : ℕ) → UserOperation
into_user_operation env o entry_point chain_id max_verification_gas max_call_gas =
    with_hash env (record {
      sender = o.sender;
      nonce = o.nonce;
      call_data = o.call_data;
      call_gas_limit = unwrap_or o.call_gas_limit max_call_gas;
      verification_gas_limit = unwrap_or o.verification_gas_limit max_verification_gas;
      pre_verification_gas = unwrap_or o.pre_verification_gas 0;
      max_fee_per_gas = unwrap_or o.max_fee_per_gas 0;
      max_priority_fee_per_gas = unwrap_or o.max_priority_fee_per_gas 0;
      signature = o.signature;
      factory = o.factory;
      factory_data = o.factory_data;
      paymaster = o.paymaster;
      paymaster_verification_gas_limit = unwrap_or o.paymaster_verification_gas_limit 0;
      paymaster_post_op_gas_limit = unwrap_or o.paymaster_post_op_gas_limit 0;
      paymaster_data = o.paymaster_data;
      entry_point = entry_point;
      chain_id = chain_id;
      hash = none;
    })
