-- ===== src/Builder/Proposer.antt =====
-- The bundle proposer (crates/builder/src/proposer.rs, crates/builder/src/bundle.rs). What the gas
-- oracle and the simulation of `handleOps` answer is the record `Answers`; the simulation is asked
-- once for each attempt.
pub mod Selection
pub mod Unverified
pub mod Simulated
pub mod Reported
pub mod AllCandidates
pub mod Blamed
use Prim.Native.String.{String}
use bunzo.Prelude.{
  ℕ, zero, suc, ◌+◌, ◌*◌, ◌/◌, ◌==◌, Bool, List, [], ◌∷◌, ◌++◌, map, Option, none, some,
  if◌then◌else◌, length, keep, get_elem?,
}
use bunzo.Prelude.Words.{to_u64, add_u64, mul_u64}
use bunzo.Prelude.Result.{Result, ok, err}
use bunzo.Types.Gas.{GasFees, covers}
use bunzo.Types.Chain.{ChainSpec}
use bunzo.Types.UserOperation.Packing.{PackedUserOperation, pack}
use bunzo.Provider.Traits.{
  ProviderError, HandleOpsOut, success, failed_op, signature_validation_failed, revert,
}
use bunzo.Types.UserOperation as Op
use bunzo.Pool.Entry.{PoolEntry}
use bunzo.Pool.Store.{OperationPool, best_operations}

pub record RejectedOp : Type 0 where
  pub hash : ℕ
  pub reason : String

pub record Bundle : Type 0 where
  pub ops : List PackedUserOperation
  pub beneficiary : ℕ
  pub gas_estimate : ℕ
  pub gas_fees : GasFees
  pub rejected_ops : List RejectedOp

unfoldable pub is_empty : Bundle → Bool
is_empty b = length b.ops == 0

unfoldable pub len : Bundle → ℕ
len b = length b.ops

pub data ProposerError : Type 0 where
  provider : ProviderError → ProposerError
  no_operations : ProposerError
  aggregator_signature_failed : (address : ℕ) → ProposerError
  handle_ops_reverted : (revert_data : List ℕ) → ProposerError

pub record Answers : Type 0 where
  pub current_fees : Result ProviderError GasFees
  pub base_fee : Result ProviderError ℕ
  pub call_handle_ops :
      (attempt : ℕ)
      → List PackedUserOperation
      → (beneficiary total_gas : ℕ) → GasFees
      → Result ProviderError HandleOpsOut

pub record BundleProposer : Type 0 where
  pub pool : OperationPool
  pub chain_spec : ChainSpec
  pub beneficiary : ℕ
  pub max_retries : ℕ

unfoldable pub new : OperationPool → ChainSpec → ℕ → BundleProposer
new pool chain_spec beneficiary = record {
  pool = pool;
  chain_spec = chain_spec;
  beneficiary = beneficiary;
  max_retries = 3;
}

unfoldable pub sum_gas : List PoolEntry → ℕ
sum_gas [] = 0
sum_gas (e ∷ es) = add_u64 (to_u64 (Op.total_gas_limit e.uo)) (sum_gas es)

unfoldable pub estimate_bundle_gas : ChainSpec → List PoolEntry → ℕ
unfolding sum_gas
estimate_bundle_gas c ops =
    add_u64 (add_u64 c.transaction_intrinsic_gas (sum_gas ops))
      (mul_u64 c.per_user_op_v0_7_gas (to_u64 (length ops)))

abbrev pub packed : List PoolEntry → List PackedUserOperation
packed = map (λ e. pack e.uo)

unfoldable pub remove_at {ℓ} : {A : Type ℓ} → ℕ → List A → List A
remove_at i [] = []
remove_at zero (x ∷ xs) = xs
remove_at (suc i) (x ∷ xs) = x ∷ remove_at i xs

-- The bundle of the operations, with 5% more gas than estimated.
unfoldable pub bundle_of : BundleProposer → GasFees → List PoolEntry → List RejectedOp → Bundle
bundle_of b fees ops rejected =
    let total_gas = estimate_bundle_gas b.chain_spec ops in
    record {
      ops = packed ops;
      beneficiary = b.beneficiary;
      gas_estimate = add_u64 total_gas (total_gas / 20);
      gas_fees = fees;
      rejected_ops = rejected;
    }

-- What follows the loop: the operations that are left, if any.
unfoldable pub finish :
    BundleProposer → GasFees → List PoolEntry → List RejectedOp → Result ProposerError Bundle
finish b fees [] rejected = err no_operations
finish b fees (op ∷ ops) rejected = ok (bundle_of b fees (op ∷ ops) rejected)

-- One attempt either ends the proposal or names an operation that failed.
pub data Outcome : Type 0 where
  done : Result ProposerError Bundle → Outcome
  failed : ℕ → String → Outcome

unfoldable pub attempt_once :
    Answers → BundleProposer → GasFees → ℕ → List PoolEntry → List RejectedOp → Outcome
attempt_once env b fees attempt [] rejected = done (err no_operations)
attempt_once env b fees attempt (op ∷ ops) rejected =
    elim (env.call_handle_ops attempt (packed (op ∷ ops)) b.beneficiary
      (estimate_bundle_gas b.chain_spec (op ∷ ops)) fees) [
        | err e ↦ done (err (provider e))
        | ok success ↦ done (ok (bundle_of b fees (op ∷ ops) rejected))
        | ok (failed_op idx reason) ↦ failed idx reason
        | ok (signature_validation_failed address) ↦
            done (err (aggregator_signature_failed address))
        | ok (revert revert_data) ↦ done (err (handle_ops_reverted revert_data))
      ]

-- The loop from an attempt on, with `left` more attempts allowed after it.
unfoldable pub retry :
    Answers
    → BundleProposer
    → GasFees
    → (left attempt : ℕ) → List PoolEntry
    → List RejectedOp
    → Result ProposerError Bundle
retry env b fees zero attempt ops rejected = elim (attempt_once env b fees attempt ops rejected) [
  | done result ↦ result
  | failed idx reason ↦ finish b fees ops rejected
]
retry env b fees (suc left) attempt ops rejected =
    elim (attempt_once env b fees attempt ops rejected) [
      | done result ↦ result
      | failed idx reason ↦ elim (get_elem? ops idx) [
        | none ↦ finish b fees ops rejected
        | some removed ↦
            retry env b fees left (suc attempt) (remove_at idx ops)
              (rejected ++ record { hash = removed.hash; reason = reason } ∷ [])
      ]
    ]

-- The operations of the pool that pay enough now, best first.
unfoldable pub candidates : BundleProposer → ℕ → List PoolEntry
candidates b base_fee =
    keep (λ e. covers (Op.gas_fees e.uo) base_fee b.chain_spec.min_max_priority_fee_per_gas)
      (best_operations b.pool b.chain_spec.max_bundle_size)

-- The code tests the candidates for emptiness before and after it filters them.
unfoldable pub propose :
    Answers → BundleProposer → GasFees → List PoolEntry → Result ProposerError Bundle
propose env b fees [] = err no_operations
propose env b fees (op ∷ ops) = retry env b fees b.max_retries 0 (op ∷ ops) []

unfoldable pub make_bundle : Answers → BundleProposer → Result ProposerError Bundle
make_bundle env b = elim env.current_fees [
  | err e ↦ err (provider e)
  | ok fees ↦ elim env.base_fee [
    | err e ↦ err (provider e)
    | ok base_fee ↦ propose env b fees (candidates b base_fee)
  ]
]
