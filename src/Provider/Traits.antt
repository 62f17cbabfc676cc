-- ===== src/Provider/Traits.antt =====
-- What the providers answer (crates/provider/src/traits.rs, crates/provider/src/error.rs).
use Prim.Native.String.{String}
use bunzo.Prelude.{ℕ, Bool, List, [], Option, some}
use bunzo.Prelude.Result.{Result, err}
use bunzo.Types.Validation.{ValidationOutput, ValidationRevert}
use bunzo.Types.UserOperation.Packing.{PackedUserOperation}

-- The texts of the errors are left out.
pub data ProviderError : Type 0 where
  transport contract_revert entry_point simulation_failed invalid_response other : ProviderError

pub record ExecutionResult : Type 0 where
  pub pre_op_gas : ℕ
  pub paid : ℕ
  pub target_success : Bool
  pub target_result : List ℕ

pub data HandleOpsOut : Type 0 where
  success : HandleOpsOut
  failed_op : ℕ → String → HandleOpsOut
  signature_validation_failed : ℕ → HandleOpsOut
  revert : List ℕ → HandleOpsOut

-- The outer option of a simulation is a panic: a number of its answer does not fit its type.
pub record EntryPointProvider : Type 0 where
  pub simulate_validation :
      PackedUserOperation → Option (Result ProviderError (Result ValidationRevert ValidationOutput))
  pub simulate_handle_op :
      PackedUserOperation
      → (target : ℕ) → List ℕ
      → Option (Result ProviderError (Result ValidationRevert ExecutionResult))
  pub encode_handle_ops : List PackedUserOperation → (beneficiary : ℕ) → List ℕ
  pub get_user_op_hash : PackedUserOperation → Result ProviderError ℕ
  pub get_balance_of : ℕ → Result ProviderError ℕ

-- `impl EntryPointProvider for ()`.
abbrev pub unit_entry_point : EntryPointProvider
unit_entry_point = record {
  simulate_validation = λ _. some (err other);
  simulate_handle_op = λ _ _ _. some (err other);
  encode_handle_ops = λ _ _. [];
  get_user_op_hash = λ _. err other;
  get_balance_of = λ _. err other;
}
