-- ===== src/Builder/Task.antt =====
-- The bundler task and its state machine (crates/builder/src/task.rs, crates/builder/src/lib.rs).
-- What the clock, the node, the signer and the submission strategy answer during one step is the
-- record `World`. The pool is shared with the proposer, which is given the task's own.
pub mod Confirmed
pub mod State
pub mod Invariant
pub mod Replacement
pub mod Mined
pub mod SharedPool
pub mod Moves
pub mod Stuck
pub mod Passing
pub mod StaleNonce
use State.{
  BundleSenderState, TransactionRequest, World, BundlerTask, idle, building, submitting, pending,
  escalating, cancelling, confirming, confirmed, abandoned,
}
use Prim.Native.String.{String}
use bunzo.Prelude.{
  ℕ, ◌+◌, ◌-◌, ◌*◌, ◌==◌, Bool, true, false, List, [], ◌∷◌, map, Option, none, some, leb, ltb,
  if◌then◌else◌, length,
}
use bunzo.Prelude.Words.{mul_u128}
use bunzo.Prelude.Result.{Result, ok, err}
use bunzo.Types.Chain.{ChainSpec}
use bunzo.Types.Gas.{GasFees}
use bunzo.Types.UserOperation.Packing.{PackedUserOperation, Hasher}
use bunzo.Types.UserOperation as Op
use bunzo.Pool.Store.{OperationPool, size, remove_by_hash, remove_by_id}
use bunzo.Provider.Traits.{ProviderError}
use bunzo.Builder.Tracker.{
  TransactionTracker, Receipt, mined, dropped, pending_status, next_nonce, record_submission,
  check_pending, needs_escalation, escalated_fees, record_escalation, clear_pending,
  default_escalation, initialize,
}
use bunzo.Builder.Tracker
use bunzo.Builder.Strategy.{SubmitError, CancelOutcome}
use bunzo.Builder.Proposer.{
  Answers, Bundle, BundleProposer, ProposerError, RejectedOp, make_bundle, is_empty,
}

-- `build_bundle_tx`.
unfoldable pub build_bundle_tx : World → BundlerTask → Bundle → ℕ → TransactionRequest
build_bundle_tx world t bundle nonce = record {
  to = t.chain_spec.entry_point_v0_7;
  nonce = nonce;
  value = 0;
  gas_limit = bundle.gas_estimate;
  max_fee_per_gas = bundle.gas_fees.max_fee_per_gas;
  max_priority_fee_per_gas = bundle.gas_fees.max_priority_fee_per_gas;
  input = world.encode_handle_ops bundle.ops bundle.beneficiary;
}

unfoldable pub remove_rejected : OperationPool → List RejectedOp → OperationPool
remove_rejected p [] = p
remove_rejected p (rejected ∷ rest) = remove_rejected (remove_by_hash p rejected.hash).0 rest

-- The loop of `remove_bundled_ops`.
unfoldable pub remove_ops :
    Hasher → ChainSpec → OperationPool → List PackedUserOperation → OperationPool
remove_ops env c p [] = p
remove_ops env c p (op ∷ ops) =
    let uo = Op.unpack env op c.entry_point_v0_7 c.id in
    remove_ops env c (remove_by_id p (Op.id uo)).0 ops

unfoldable pub remove_bundled_ops : Hasher → BundlerTask → BundlerTask
remove_bundled_ops env t = elim t.current_bundle [
  | none ↦ t
  | some bundle ↦ record t { pool = remove_ops env t.chain_spec t.pool bundle.ops }
]

-- Each handler returns the task and its next state.
unfoldable pub handle_idle : BundlerTask → BundlerTask × BundleSenderState
handle_idle t = if size t.pool == 0 then (t, idle) else (t, building)

unfoldable pub handle_building : World → BundlerTask → BundlerTask × BundleSenderState
handle_building world t =
    elim (make_bundle world.proposer_answers (record (t.proposer) { pool = t.pool })) [
      | err e ↦ (t, idle)
      | ok bundle ↦ if is_empty bundle then (t, idle) else (
        record t {
          pool = remove_rejected t.pool bundle.rejected_ops;
          current_bundle = some bundle;
        },
        submitting,
      )
    ]

unfoldable pub handle_submitting : World → BundlerTask → BundlerTask × BundleSenderState
handle_submitting world t = elim t.current_bundle [
  | none ↦ (t, idle)
  | some bundle ↦
      let nonce = next_nonce t.tracker in
      elim (world.sign_transaction (build_bundle_tx world t bundle nonce) t.chain_spec.id) [
        | err e ↦ (t, abandoned)
        | ok signed_tx ↦ elim (world.submit signed_tx) [
          | err e ↦ (t, abandoned)
          | ok tx_hash ↦ (
            record t {
              tracker =
                  record_submission world.now t.tracker tx_hash nonce
                    bundle.gas_fees.max_fee_per_gas bundle.gas_fees.max_priority_fee_per_gas;
            },
            pending,
          )
        ]
      ]
]

unfoldable pub handle_pending : Hasher → World → BundlerTask → BundlerTask × BundleSenderState
handle_pending env world t =
    let checked = check_pending world.get_receipt world.get_nonce t.tracker in
    let t' = record t { tracker = checked.0 } in
    elim checked.1 [
      | err e ↦ (t', pending)
      | ok none ↦ (t', idle)
      | ok (some dropped) ↦ (t', abandoned)
      | ok (some (mined block_number)) ↦
          (remove_bundled_ops env (record t' { mined_block = some block_number }), confirming)
      | ok (some pending_status) ↦
          (t', if needs_escalation world.now checked.0 then escalating else pending)
    ]

-- The replacement transaction: the bundle's, at the nonce before the next one, with the new fees.
unfoldable pub escalation_tx : World → BundlerTask → Bundle → ℕ → ℕ → TransactionRequest
escalation_tx world t bundle new_max_fee new_priority_fee =
    record (build_bundle_tx world t bundle (next_nonce t.tracker - 1)) {
      max_fee_per_gas = new_max_fee;
      max_priority_fee_per_gas = new_priority_fee;
    }

unfoldable pub handle_escalating : World → BundlerTask → BundlerTask × BundleSenderState
handle_escalating world t =
    elim (escalated_fees world.get_base_fee world.get_priority_fee t.tracker) [
      | none ↦ (record t { tracker = clear_pending t.tracker }, abandoned)
      | some (new_max_fee, new_priority_fee) ↦ elim t.current_bundle [
        | none ↦ (record t { tracker = clear_pending t.tracker }, abandoned)
        | some bundle ↦
            elim (world.sign_transaction (escalation_tx world t bundle new_max_fee new_priority_fee)
              t.chain_spec.id) [
                | err e ↦ (t, pending)
                | ok signed_tx ↦ elim (world.submit signed_tx) [
                  | err e ↦ (t, pending)
                  | ok new_tx_hash ↦ (
                    record t {
                      tracker =
                          record_escalation t.tracker new_tx_hash new_max_fee new_priority_fee;
                    },
                    pending,
                  )
                ]
              ]
      ]
    ]

unfoldable pub cancel_tx : BundlerTask → Tracker.PendingTransaction → TransactionRequest
cancel_tx t p = record {
  to = t.signer_address;
  nonce = p.nonce;
  value = 0;
  gas_limit = 21000;
  max_fee_per_gas = mul_u128 p.max_fee_per_gas 2;
  max_priority_fee_per_gas = mul_u128 p.max_priority_fee_per_gas 2;
  input = [];
}

-- Whatever the signer and the strategy answer, the transaction is forgotten; the answer of the
-- strategy only decides what is logged.
unfoldable pub handle_cancelling : World → BundlerTask → BundlerTask × BundleSenderState
handle_cancelling world t =
    let forgotten = record t { tracker = clear_pending t.tracker } in
    elim t.tracker.pending [
      | none ↦ (t, idle)
      | some p ↦ elim (world.sign_transaction (cancel_tx t p) t.chain_spec.id) [
        | err e ↦ (forgotten, abandoned)
        | ok signed ↦ elim (world.cancel p.tx_hash (some signed)) [
          | ok outcome ↦ (forgotten, abandoned)
          | err e ↦ (forgotten, abandoned)
        ]
      ]
    ]

unfoldable pub handle_confirming : World → BundlerTask → BundlerTask × BundleSenderState
handle_confirming world t = elim t.mined_block [
  | none ↦ (t, confirmed)
  | some mined_at ↦ elim world.get_block_number [
    | err e ↦ (t, confirming)
    | ok current_block ↦
        (t, if leb t.confirmation_depth (current_block - mined_at) then confirmed else confirming)
  ]
]

-- A terminal state goes back to idle.
unfoldable pub handle_terminal : BundlerTask → BundlerTask × BundleSenderState
handle_terminal t = (record t { current_bundle = none; mined_block = none }, idle)

unfoldable pub handle :
    Hasher → World → BundlerTask → BundleSenderState → BundlerTask × BundleSenderState
handle env world t idle = handle_idle t
handle env world t building = handle_building world t
handle env world t submitting = handle_submitting world t
handle env world t pending = handle_pending env world t
handle env world t escalating = handle_escalating world t
handle env world t cancelling = handle_cancelling world t
handle env world t confirming = handle_confirming world t
handle env world t confirmed = handle_terminal t
handle env world t abandoned = handle_terminal t

unfoldable pub step : Hasher → World → BundlerTask → BundlerTask
step env world t =
    let (t', next_state) = handle env world t t.state in record t' { state = next_state }

-- `run`: the task starts when the node tells the nonce, and then makes one step a tick.
unfoldable pub start : Result ProviderError ℕ → BundlerTask → Option BundlerTask
start get_nonce t =
    let (tracker, answer) = initialize get_nonce t.tracker in
    elim answer [ err e ↦ none | ok _ ↦ some (record t { tracker = tracker }) ]

unfoldable pub run : Hasher → BundlerTask → List World → BundlerTask
run env t [] = t
run env t (world ∷ worlds) = run env (step env world t) worlds
