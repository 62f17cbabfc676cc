-- ===== src/Rpc/Estimate.antt =====
-- crates/rpc/src/eth.rs, `estimate_user_operation_gas`. The two simulations of the entry point are
-- the record `EntryPointProvider`, which `AlloyEntryPointProvider` fills.
pub mod OverNode
use bunzo.Prelude.{ℕ, List, [], ◌-◌, ◌/◌, max, Option, none, some, not, ltb, is_some, if◌then◌else◌}
use bunzo.Prelude.Words.{add_u128, u128_mod}
use bunzo.Prelude.Result.{Result, ok, err}
use bunzo.Types.Chain.{ChainSpec, is_entry_point}
use bunzo.Types.Gas.{GasEstimate}
use bunzo.Types.UserOperation.Packing.{UserOperation, PackedUserOperation, Hasher, pack}
use bunzo.Types.UserOperation.OptionalGas.{UserOperationOptionalGas, into_user_operation}
use bunzo.Types.UserOperation as Op
use bunzo.Types.Validation.{ValidationOutput, ValidationRevert}
use bunzo.Provider.Traits.{ProviderError, ExecutionResult, EntryPointProvider}
use bunzo.Pool.Reputation.{Float}
use bunzo.Rpc.Eth.{
  EthApi, RpcError, unsupported_entry_point, provider_not_configured, simulation_failed,
  validation_reverted, execution_reverted,
}

-- The call gas. `paid.to::<u128>()` panics when the amount does not fit: `none`.
unfoldable pub call_gas_limit : (base_fee pre_op_gas : ℕ) → ExecutionResult → Option ℕ
call_gas_limit base_fee pre_op_gas res =
    if ltb pre_op_gas res.pre_op_gas
    then some (res.pre_op_gas - pre_op_gas)
    else if ltb res.paid u128_mod
    then some (res.paid / max base_fee 1)
    else none

unfoldable pub estimate :
    Hasher → ChainSpec → UserOperation → (pre_op_gas call_gas : ℕ) → GasEstimate
estimate env c full_op pre_op_gas call_gas = record {
  pre_verification_gas =
      add_u128
        (Op.calldata_gas_cost env full_op c.calldata_zero_byte_gas c.calldata_non_zero_byte_gas)
        c.per_user_op_v0_7_gas;
  call_gas_limit = call_gas;
  verification_gas_limit = pre_op_gas;
  paymaster_verification_gas_limit = if is_some full_op.paymaster then some pre_op_gas else none;
}

module _ (fl : Float) (env : Hasher) where
  -- What follows the simulation of the execution.
  unfoldable pub executed :
      EthApi fl
      → UserOperation
      → ValidationOutput
      → Result ProviderError (Result ValidationRevert ExecutionResult)
      → Option (Result RpcError GasEstimate)
  unfolding estimate call_gas_limit
  executed api full_op validation_res (err _) = some (err simulation_failed)
  executed api full_op validation_res (ok (err reverted)) = some (err (execution_reverted reverted))
  executed api full_op validation_res (ok (ok res)) =
      elim (call_gas_limit api.base_fee validation_res.pre_op_gas res) [
        | none ↦ none
        | some call_gas ↦
            some (ok (estimate env api.chain_spec full_op validation_res.pre_op_gas call_gas))
      ]

  -- Both simulations; the outer option is a panic.
  unfoldable pub simulate :
      EthApi fl → EntryPointProvider → UserOperation → Option (Result RpcError GasEstimate)
  unfolding executed
  simulate api ep full_op = elim (ep.simulate_validation (pack full_op)) [
    | none ↦ none
    | some (err _) ↦ some (err simulation_failed)
    | some (ok (err reverted)) ↦ some (err (validation_reverted reverted))
    | some (ok (ok validation_res)) ↦ elim (ep.simulate_handle_op (pack full_op) 0 []) [
      | none ↦ none
      | some res ↦ executed api full_op validation_res res
    ]
  ]

  unfoldable pub estimate_user_operation_gas :
      EthApi fl
      → Option EntryPointProvider
      → UserOperationOptionalGas
      → ℕ
      → Option (Result RpcError GasEstimate)
  unfolding simulate
  estimate_user_operation_gas api provider user_op entry_point =
      if not (is_entry_point api.chain_spec entry_point)
      then some (err (unsupported_entry_point entry_point))
      else elim provider [
        | none ↦ some (err provider_not_configured)
        | some ep ↦
            simulate api ep
              (into_user_operation env user_op entry_point api.chain_spec.id 1000000 10000000)
      ]
