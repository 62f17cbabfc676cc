-- ===== src/Tests/Builder.antt =====
-- The theorems on the proposer, the strategies, the tracker and the conflicts.
use bunzo.Prelude.{
  ◌↔◌, ℕ, zero, suc, ◌+◌, ◌*◌, ◌/◌, ◌≤◌, ◌<◌, ◌≡◌, ◌≢◌, refl, ◌⊎◌, inl, inr, Bool, true, List, [],
  ◌∷◌, ◌++◌, Option, none, some, arith, length, In, drop, if◌then◌else◌, ◌==◌,
}
use bunzo.Prelude.Maps.{get, UniqueKeys}
use bunzo.Prelude.Result.{Result, ok, err}
use bunzo.Types.Chain.{dev}
use bunzo.Types.Gas.{GasFees, covers}
use bunzo.Types.UserOperation.Packing.{PackedUserOperation}
use bunzo.Types.UserOperation as Op
use bunzo.Pool.Store.{best_operations}
use bunzo.Provider.Traits.{success, failed_op}
use bunzo.Builder.Proposer.{Answers, Bundle, BundleProposer, make_bundle, candidates, packed}
use bunzo.Builder.Proposer.Selection.{IsMadeOf, make_bundle_made}
use bunzo.Builder.Proposer.Simulated.{Simulated, make_bundle-Simulated}
use bunzo.Builder.Proposer.Unverified.{make_bundle_unverified}
use bunzo.Builder.Strategy.{SubmitError, strategy_failed, cancelled}
use bunzo.Builder.Strategy.Router.{Strategy, StrategyRouter, submit}
use bunzo.Builder.Strategy.Failover.{Ends, submit_Ends}
use bunzo.Builder.Tracker.{
  TransactionTracker, PendingTransaction, Receipt, default_escalation, escalated_fees,
  check_pending, mined,
}
use bunzo.Builder.Tracker.Fees.{escalated_fees_bump}
use bunzo.Builder.Conflict.{
  Slot, slot_discrete, read, write, StorageAccess, ConflictDetector, new, add_operation,
  check_conflicts,
}
use bunzo.Builder.Conflict.Recorded.{last_writer_only}
use bunzo.Builder.Conflict.History.{Added, add_all, Conflicts, check_conflicts_exact}
use bunzo.Tests.Data.{pool_ab}

abbrev pub fees : GasFees
fees = record { max_fee_per_gas = 500; max_priority_fee_per_gas = 10 }

-- The simulation fails at the first operation in the first attempt, and passes afterwards.
abbrev pub once : Answers
once = record {
  current_fees = ok fees;
  base_fee = ok 5;
  call_handle_ops = λ attempt ops beneficiary total_gas f.
      if attempt == 0 then ok (failed_op 0 "AA21") else ok success;
}

abbrev always : Answers
always = record {
  current_fees = ok fees;
  base_fee = ok 5;
  call_handle_ops = λ attempt ops beneficiary total_gas f. ok (failed_op 0 "AA21");
}

abbrev pub proposer : BundleProposer
proposer = record { pool = pool_ab; chain_spec = dev; beneficiary = 1; max_retries = 1 }

-- The functions that the runs of the proposer compute.
unfoldable pub proposals : Unit {0}
unfolding make_bundle bunzo.Builder.Proposer.propose candidates best_operations bunzo.Pool.Store.add
    get bunzo.Pool.Store.new bunzo.Pool.Store.admit bunzo.Pool.Store.size bunzo.Pool.Store.store
    bunzo.Prelude.Maps.insert bunzo.Prelude.ℕ_discrete Op.hash bunzo.Pool.Entry.id_discrete Op.id
    bunzo.Pool.Store.increment bunzo.Pool.Ordered.insert bunzo.Pool.Entry.cmp
    bunzo.Builder.Proposer.attempt_once bunzo.Builder.Proposer.bundle_of
    bunzo.Builder.Proposer.estimate_bundle_gas bunzo.Builder.Proposer.finish
    bunzo.Builder.Proposer.remove_at bunzo.Builder.Proposer.retry bunzo.Builder.Proposer.sum_gas
    bunzo.Pool.Entry.new_entry covers bunzo.Types.Gas.effective_gas_price
    bunzo.Types.UserOperation.Bytes.to_be bunzo.Types.UserOperation.Packing.pack
    bunzo.Types.UserOperation.Packing.pack_init_code
    bunzo.Types.UserOperation.Packing.pack_paymaster
    bunzo.Types.UserOperation.Packing.pack_u128_pair Op.effective_gas_price Op.gas_fees
    Op.total_gas_limit
proposals = tt

abbrev no_bundle : Bundle
no_bundle = record {
  ops = [];
  beneficiary = 0;
  gas_estimate = 0;
  gas_fees = fees;
  rejected_ops = [];
}

made : Bundle
unfolding proposals
made = elim (make_bundle once proposer) [ ok b ↦ b | err e ↦ no_bundle ]

make_bundle_made_example : IsMadeOf (candidates proposer 5) 1 made
unfolding proposals made
make_bundle_made_example = make_bundle_made once proposer 5 made refl refl

make_bundle_unverified_example :
    (bundle : Bundle) × (make_bundle always proposer ≡ ok bundle)
    × (bundle.ops ≡ packed (drop 1 (candidates proposer 5)))
unfolding proposals
make_bundle_unverified_example =
    make_bundle_unverified always proposer "AA21" (λ attempt ops beneficiary gas f. refl) fees 5
      refl refl (omega arith)

abbrev down : Strategy
down = record {
  submit = λ raw_tx. err (strategy_failed "down");
  cancel = λ hash raw. ok cancelled;
  supports_soft_cancel = true;
}

abbrev up : Strategy
up = record down { submit = λ raw_tx. ok 77 }

abbrev router : StrategyRouter
router = record { strategies = down ∷ up ∷ []; primary = 0 }

submit_Ends_example :
    (out : StrategyRouter × Result SubmitError ℕ) × (submit router (1 ∷ []) ≡ some out)
    × Ends router (1 ∷ []) 2 out
submit_Ends_example = submit_Ends router (1 ∷ [])

abbrev pub sent : PendingTransaction
sent = record {
  tx_hash = 55;
  nonce = 4;
  escalation_count = 0;
  submitted_at = 0;
  max_fee_per_gas = 500;
  max_priority_fee_per_gas = 10;
}

abbrev pub tracker : TransactionTracker
tracker = record {
  signer_address = 1;
  pending = some sent;
  current_nonce = 4;
  escalation_config = default_escalation;
}

escalated_fees_bump_example :
    (500 + 500 * 1250 / 10000 ≤ 562) × (10 + 10 * 1250 / 10000 ≤ 11) × (0 < 5)
unfolding escalated_fees bunzo.Builder.Tracker.escalated_fees_network bunzo.Builder.Tracker.bumped
escalated_fees_bump_example =
    escalated_fees_bump (ok 5) (ok 1) tracker sent 562 11 refl refl (omega arith) (omega arith)
      (omega arith)

abbrev cell : Slot
cell = record { address = 3; slot = 0 }

abbrev writes : StorageAccess
writes = record { slots = (cell, write) ∷ [] }

abbrev detector : ConflictDetector
detector = (add_operation new 1 writes).0

-- The write of sender 1 is not reported to sender 2, since sender 2 wrote later.
last_writer_only_example :
    check_conflicts (add_operation detector 2 writes).0 2 (record { slots = (cell, read) ∷ [] })
    ≡ []
unfolding get slot_discrete
last_writer_only_example = last_writer_only detector 2 2 writes cell (refl, tt) refl

abbrev added : List Added
added =
    record { sender = 1; access = writes }
    ∷ record { sender = 2; access = writes }
    ∷ record { sender = 3; access = record { slots = (cell, read) ∷ [] } }
    ∷ []

-- A read by sender 3 conflicts with the last writer, operation 1.
check_conflicts_exact_example :
    In 1 (check_conflicts (add_all new added) 3 (record { slots = (cell, read) ∷ [] }))
    ↔ Conflicts added 3 (record { slots = (cell, read) ∷ [] }) 1
unfolding get
check_conflicts_exact_example =
    check_conflicts_exact added 3 1 (record { slots = (cell, read) ∷ [] })
      ((refl, tt), ((refl, tt), ((refl, tt), tt)))

make_bundle-Simulated_example :
    (f : GasFees) × (once.current_fees ≡ ok f) × Simulated once proposer f 1 made
unfolding proposals made
make_bundle-Simulated_example = make_bundle-Simulated once proposer made refl
