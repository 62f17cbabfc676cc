-- ===== src/Provider/Contracts.antt =====
-- The data of the v0.7 entry point (crates/provider/src/contracts.rs), and the coding of its calls
-- and errors, which the `sol!` macro generates: the record `Abi`.
use Prim.Native.String.{String}
use bunzo.Prelude.{ℕ, Bool, List, Option}
use bunzo.Types.UserOperation.Packing.{PackedUserOperation}

pub record ReturnInfo : Type 0 where
  pub pre_op_gas : ℕ
  pub prefund : ℕ
  pub account_validation_data : ℕ
  pub paymaster_validation_data : ℕ
  pub paymaster_context : List ℕ

pub record StakeInfo : Type 0 where
  pub stake : ℕ
  pub unstake_delay_sec : ℕ

pub record AggregatorStakeInfo : Type 0 where
  pub aggregator : ℕ
  pub stake_info : StakeInfo

pub record ValidationResult : Type 0 where
  pub return_info : ReturnInfo
  pub sender_info : StakeInfo
  pub factory_info : StakeInfo
  pub paymaster_info : StakeInfo
  pub aggregator_info : AggregatorStakeInfo

pub record ExecutionResult : Type 0 where
  pub pre_op_gas : ℕ
  pub paid : ℕ
  pub account_validation_data : ℕ
  pub paymaster_validation_data : ℕ
  pub target_success : Bool
  pub target_result : List ℕ

pub data EntryPointError : Type 0 where
  failed_op : (op_index : ℕ) (reason : String) → EntryPointError
  failed_op_with_revert : (op_index : ℕ) (reason : String) (inner : List ℕ) → EntryPointError
  signature_validation_failed : (aggregator : ℕ) → EntryPointError

-- Calls are encoded to bytes; results and errors are decoded, which fails on other bytes.
pub record Abi : Type 0 where
  pub encode_simulate_validation : PackedUserOperation → List ℕ
  pub encode_simulate_handle_op :
      PackedUserOperation → (target : ℕ) → (target_call_data : List ℕ) → List ℕ
  pub encode_handle_ops : List PackedUserOperation → (beneficiary : ℕ) → List ℕ
  pub encode_get_user_op_hash : PackedUserOperation → List ℕ
  pub encode_balance_of : (account : ℕ) → List ℕ
  pub decode_validation_result : List ℕ → Option ValidationResult
  pub decode_execution_result : List ℕ → Option ExecutionResult
  pub decode_word : List ℕ → Option ℕ
  pub decode_error : List ℕ → Option EntryPointError
