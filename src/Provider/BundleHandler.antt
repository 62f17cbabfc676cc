-- ===== src/Provider/BundleHandler.antt =====
-- The simulation of a bundle (crates/provider/src/alloy/bundle_handler.rs).
pub mod Answered
use bunzo.Prelude.{ℕ, List, Option, none, some}
use bunzo.Prelude.Words.{to_usize}
use bunzo.Prelude.Result.{Result, ok, err}
use bunzo.Types.Gas.{GasFees}
use bunzo.Types.UserOperation.Packing.{PackedUserOperation}
use bunzo.Provider.Traits.{
  ProviderError, transport, HandleOpsOut, success, failed_op, signature_validation_failed, revert,
}
use bunzo.Provider.Contracts.{Abi}
use bunzo.Provider.Contracts
use bunzo.Provider.Revert.{HexDecoder, extract_revert_data}

pub record HandleOpsTx : Type 0 where
  pub to : ℕ
  pub input : List ℕ
  pub gas_limit : ℕ
  pub max_fee_per_gas : ℕ
  pub max_priority_fee_per_gas : ℕ

pub record AlloyBundleHandler : Type 0 where
  pub call : HandleOpsTx → Result (List ℕ) (List ℕ)
  pub entry_point : ℕ

-- An index that does not fit a usize is a panic: `none`.
unfoldable pub decode_handle_ops : Abi → List ℕ → Option HandleOpsOut
decode_handle_ops abi bytes = elim (abi.decode_error bytes) [
  | none ↦ some (revert bytes)
  | some (Contracts.failed_op index reason) ↦ elim (to_usize index) [
    | none ↦ none
    | some op_index ↦ some (failed_op op_index reason)
  ]
  | some (Contracts.failed_op_with_revert index reason inner) ↦ elim (to_usize index) [
    | none ↦ none
    | some op_index ↦ some (failed_op op_index reason)
  ]
  | some (Contracts.signature_validation_failed aggregator) ↦
      some (signature_validation_failed aggregator)
]

module _ (abi : Abi) (hex : HexDecoder) (h : AlloyBundleHandler) where
  unfoldable pub build_handle_ops_tx :
      List PackedUserOperation → (beneficiary gas_limit : ℕ) → GasFees → HandleOpsTx
  build_handle_ops_tx ops beneficiary gas_limit gas_fees = record {
    to = h.entry_point;
    input = abi.encode_handle_ops ops beneficiary;
    gas_limit = gas_limit;
    max_fee_per_gas = gas_fees.max_fee_per_gas;
    max_priority_fee_per_gas = gas_fees.max_priority_fee_per_gas;
  }

  -- The error branch of `call_handle_ops`.
  unfoldable pub handle_ops_error : List ℕ → Option (Result ProviderError HandleOpsOut)
  unfolding decode_handle_ops
  handle_ops_error text = elim (extract_revert_data hex text) [
    | none ↦ some (err transport)
    | some bytes ↦ elim (decode_handle_ops abi bytes) [ none ↦ none | some out ↦ some (ok out) ]
  ]

  unfoldable pub call_handle_ops :
      List PackedUserOperation
      → (beneficiary gas_limit : ℕ) → GasFees
      → Option (Result ProviderError HandleOpsOut)
  unfolding build_handle_ops_tx handle_ops_error
  call_handle_ops ops beneficiary gas_limit gas_fees =
      elim (h.call (build_handle_ops_tx ops beneficiary gas_limit gas_fees)) [
        | ok _ ↦ some (ok success)
        | err text ↦ handle_ops_error text
      ]
