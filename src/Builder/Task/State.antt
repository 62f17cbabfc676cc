-- ===== src/Builder/Task/State.antt =====
-- The state of the bundler task, and what the world answers it (crates/builder/src/lib.rs,
-- crates/builder/src/task.rs).
use Prim.Native.String.{String}
use bunzo.Prelude.{ℕ, List, Option, none}
use bunzo.Prelude.Result.{Result}
use bunzo.Types.Chain.{ChainSpec}
use bunzo.Types.UserOperation.Packing.{PackedUserOperation}
use bunzo.Pool.Store.{OperationPool}
use bunzo.Provider.Traits.{ProviderError}
use bunzo.Builder.Tracker.{
  TransactionTracker, Receipt, mined, dropped, pending_status, next_nonce, record_submission,
  check_pending, needs_escalation, escalated_fees, record_escalation, clear_pending,
  default_escalation, initialize,
}
use bunzo.Builder.Tracker
use bunzo.Builder.Strategy.{SubmitError, CancelOutcome}
use bunzo.Builder.Proposer.{Answers, Bundle, BundleProposer}

pub data BundleSenderState : Type 0 where
  idle building submitting pending escalating cancelling confirming confirmed abandoned :
      BundleSenderState

pub record TransactionRequest : Type 0 where
  pub to : ℕ
  pub nonce : ℕ
  pub value : ℕ
  pub gas_limit : ℕ
  pub max_fee_per_gas : ℕ
  pub max_priority_fee_per_gas : ℕ
  pub input : List ℕ

-- `encode_handle_ops` is the ABI encoding of the call of the entry point.
pub record World : Type 0 where
  pub now : ℕ
  pub proposer_answers : Answers
  pub sign_transaction : TransactionRequest → (chain_id : ℕ) → Result String (List ℕ)
  pub submit : List ℕ → Result SubmitError ℕ
  pub cancel : ℕ → Option (List ℕ) → Result SubmitError CancelOutcome
  pub get_receipt : ℕ → Result ProviderError (Option Receipt)
  pub get_nonce : Result ProviderError ℕ
  pub get_base_fee : Result ProviderError ℕ
  pub get_priority_fee : Result ProviderError ℕ
  pub get_block_number : Result ProviderError ℕ
  pub encode_handle_ops : List PackedUserOperation → (beneficiary : ℕ) → List ℕ

pub record BundlerTask : Type 0 where
  pub proposer : BundleProposer
  pub signer_address : ℕ
  pub pool : OperationPool
  pub chain_spec : ChainSpec
  pub tracker : TransactionTracker
  pub state : BundleSenderState
  pub current_bundle : Option Bundle
  pub confirmation_depth : ℕ
  pub mined_block : Option ℕ

unfoldable pub new : BundleProposer → ℕ → OperationPool → ChainSpec → BundlerTask
new proposer signer_address pool chain_spec = record {
  proposer = proposer;
  signer_address = signer_address;
  pool = pool;
  chain_spec = chain_spec;
  tracker = Tracker.new signer_address default_escalation;
  state = idle;
  current_bundle = none;
  confirmation_depth = 3;
  mined_block = none;
}
