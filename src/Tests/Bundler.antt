-- ===== src/Tests/Bundler.antt =====
-- The theorems on the bundler task.
use bunzo.Prelude.{◌+◌, ◌≡◌, ◌≢◌, refl, [], ◌∷◌, none, some, arith}
use bunzo.Prelude.Result.{ok, err}
use bunzo.Provider.Traits.{transport}
use bunzo.Builder.Task.StaleNonce.{RefusesNonce, given_up_nonce}
use bunzo.Types.Chain.{dev}
use bunzo.Types.UserOperation.Packing.{pack}
use bunzo.Builder.Proposer.{Bundle}
use bunzo.Builder.Strategy.{cancelled, retryable}
use bunzo.Builder.Tracker.{record_escalation, escalated_fees, next_nonce}
use bunzo.Builder.Task.State.{BundlerTask, World, idle, cancelling, escalating, pending, new}
use bunzo.Builder.Task.{start, run, handle_escalating, escalation_tx}
use bunzo.Builder.Task.Invariant.{Holds, started_Holds}
use bunzo.Builder.Task.Replacement.{escalation_wrong_nonce}
use bunzo.Builder.Task.{remove_ops}
use bunzo.Tests.Data.{hasher, op_a, pool_ab}
use bunzo.Tests.Builder.{once, proposer, tracker, sent, fees}

abbrev pub world : World
world = record {
  now = 100;
  proposer_answers = once;
  sign_transaction = λ tx chain_id. ok (tx.nonce ∷ []);
  submit = λ raw. ok 66;
  cancel = λ hash raw. ok cancelled;
  get_receipt = λ hash. ok none;
  get_nonce = ok 4;
  get_base_fee = ok 5;
  get_priority_fee = ok 1;
  get_block_number = ok 9;
  encode_handle_ops = λ ops beneficiary. [];
}

abbrev pub started : BundlerTask
started = record {
  proposer = proposer;
  signer_address = 1;
  pool = pool_ab;
  chain_spec = dev;
  tracker = record tracker { pending = none };
  state = idle;
  current_bundle = none;
  confirmation_depth = 3;
  mined_block = none;
}

started_Holds_example :
    let t' = run hasher started (world ∷ world ∷ world ∷ world ∷ []) in
    Holds t'.state t' × (t'.state ≢ cancelling)
unfolding start new bunzo.Builder.Tracker.initialize bunzo.Builder.Tracker.new
started_Holds_example =
    started_Holds hasher proposer 1 pool_ab dev (ok 4) started (world ∷ world ∷ world ∷ world ∷ [])
      refl

abbrev pub bundle : Bundle
bundle = record {
  ops = pack op_a ∷ [];
  beneficiary = 1;
  gas_estimate = 1000;
  gas_fees = fees;
  rejected_ops = [];
}

abbrev stuck : BundlerTask
stuck = record started { tracker = tracker; state = escalating; current_bundle = some bundle }

escalation_wrong_nonce_example :
    ((escalation_tx world stuck bundle 562 11).nonce + 1 ≡ sent.nonce)
    × (handle_escalating world stuck
        ≡ (record stuck { tracker = record_escalation stuck.tracker 66 562 11 }, pending))
unfolding escalated_fees bunzo.Builder.Proposer.is_empty
    bunzo.Builder.Tracker.escalated_fees_network bunzo.Builder.Tracker.bumped escalation_tx
    bunzo.Builder.Task.build_bundle_tx bunzo.Builder.Tracker.next_nonce
escalation_wrong_nonce_example =
    escalation_wrong_nonce world stuck sent bundle 562 11 66 (3 ∷ []) (refl, refl) refl
      (omega arith) refl refl refl refl

-- A node that does not tell its base fee, and one that takes no transaction.
abbrev silent : World
silent = record world { get_base_fee = err transport }

abbrev refusing : World
refusing = record world { submit = λ raw. err (retryable "nonce too low") }

refuses : RefusesNonce 4 refusing
refuses t b raw signed = (retryable "nonce too low", refl)

given_up_nonce_example :
    let t' = run hasher stuck (silent ∷ refusing ∷ refusing ∷ []) in
    (t'.tracker.pending ≡ none) × (next_nonce t'.tracker ≡ 4)
unfolding next_nonce escalated_fees bunzo.Builder.Tracker.escalated_fees_network
given_up_nonce_example =
    given_up_nonce hasher stuck sent silent (refusing ∷ refusing ∷ []) refl refl refl refl
      (refuses, (refuses, tt))
