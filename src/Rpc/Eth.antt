-- ===== src/Rpc/Eth.antt =====
-- crates/rpc/src/eth.rs: `EthApiImpl`, its `sendUserOperation` and `getUserOperationByHash`. As in
-- bin/bunzo/src/main.rs, the validator holds the pool of the API.
use Prim.Native.String.{String}
use bunzo.Prelude.{ℕ, Option, none, some, not, if◌then◌else◌}
use bunzo.Prelude.Words.{to_u64}
use bunzo.Prelude.Result.{Result, ok, err}
use bunzo.Types.Validation.{ValidationRevert}
use bunzo.Types.Chain.{ChainSpec, is_entry_point}
use bunzo.Types.Error.{PoolError, ValidationError}
use bunzo.Types.UserOperation.Packing.{UserOperation, Hasher}
use bunzo.Types.UserOperation as Op
use bunzo.Pool.Store.{OperationPool, add, get_by_hash}
use bunzo.Pool.Reputation.{Float}
use bunzo.Pool.Validation.{Validator, validate_sync}

-- The messages of `InvalidParams` and `Internal` are kept as what they are formatted from.
pub data RpcError : Type 0 where
  unsupported_entry_point : ℕ → RpcError
  validation_failed : ValidationError → RpcError
  validation_reverted execution_reverted : ValidationRevert → RpcError
  provider_not_configured simulation_failed internal : RpcError
  pool : PoolError → RpcError
  method_not_found other : String → RpcError

abbrev pub invalid_useroperation : ℕ
invalid_useroperation = 32602

-- The error code that a client sees, without its sign.
unfoldable pub error_code : RpcError → ℕ
error_code (unsupported_entry_point _) = invalid_useroperation
error_code (validation_failed _) = invalid_useroperation
error_code (validation_reverted _) = invalid_useroperation
error_code (execution_reverted _) = invalid_useroperation
error_code provider_not_configured = 32603
error_code simulation_failed = 32603
error_code internal = 32603
error_code (pool _) = invalid_useroperation
error_code (method_not_found _) = 32601
error_code (other _) = 32603

pub record UserOperationWithEntryPoint : Type 0 where
  pub user_operation : UserOperation
  pub entry_point : ℕ
  pub block_number : Option ℕ
  pub block_hash : Option ℕ
  pub transaction_hash : Option ℕ

module _ (fl : Float) where
  pub record EthApi : Type 0 where
    pub chain_spec : ChainSpec
    pub op_pool : OperationPool
    pub validator : Validator fl
    pub base_fee : ℕ

  -- The API at its start; the providers are arguments of the methods that ask them.
  unfoldable pub with_providers : ChainSpec → OperationPool → Validator fl → EthApi
  with_providers chain_spec op_pool validator = record {
    chain_spec = chain_spec;
    op_pool = op_pool;
    validator = validator;
    base_fee = 0;
  }

  unfoldable pub set_base_fee : EthApi → ℕ → EthApi
  set_base_fee api base_fee = record api { base_fee = to_u64 base_fee }

  -- `sendUserOperation` after the check of the entry point.
  unfoldable pub accept : Hasher → EthApi → UserOperation → EthApi × Result RpcError ℕ
  accept env api uo =
      let (validator, verdict) =
        validate_sync fl api.validator (some api.op_pool) uo api.base_fee in
      let (op_pool, added) = add env api.op_pool uo api.base_fee in
      elim verdict [
        | err e ↦ (record api { validator = validator }, err (validation_failed e))
        | ok _ ↦ (
          record api { validator = validator; op_pool = op_pool },
          elim added [ err e ↦ err (pool e) | ok hash ↦ ok hash ],
        )
      ]

  unfoldable pub send_user_operation :
      Hasher → EthApi → UserOperation → ℕ → EthApi × Result RpcError ℕ
  unfolding accept
  send_user_operation env api user_op entry_point =
      if not (is_entry_point api.chain_spec entry_point)
      then (api, err (unsupported_entry_point entry_point))
      else accept env api (Op.set_context env user_op entry_point api.chain_spec.id)

  unfoldable pub get_user_operation_by_hash : EthApi → ℕ → Option UserOperationWithEntryPoint
  get_user_operation_by_hash api hash = elim (get_by_hash api.op_pool hash) [
    | none ↦ none
    | some entry ↦ some (record {
      user_operation = entry.uo;
      entry_point = api.chain_spec.entry_point_v0_7;
      block_number = none;
      block_hash = none;
      transaction_hash = none;
    })
  ]

  unfoldable pub chain_id : EthApi → ℕ
  chain_id api = api.chain_spec.id
