-- ===== src/Builder/Task/Replacement.antt =====
-- The nonce of a fee escalation (crates/builder/src/task.rs, `handle_escalating`).
use bunzo.Prelude.{ℕ, ◌+◌, ◌≡◌, ◌≢◌, List, some, arith}
use bunzo.Prelude.Result.{ok}
use bunzo.Builder.Tracker.{PendingTransaction, next_nonce, escalated_fees, record_escalation}
use bunzo.Builder.Proposer.{Bundle}
use bunzo.Builder.Task.State.{BundlerTask, World, escalating, pending}
use bunzo.Builder.Task.{handle_escalating, escalation_tx, build_bundle_tx}
use bunzo.Builder.Task.Invariant.{Holds}

-- Fee escalation does not replace the pending transaction: in every escalating state that the
-- bundler can reach, whose pending nonce is not 0, the transaction that the code signs and submits
-- as its replacement has a nonce that is lower by one, while the tracker goes on to record the
-- answer as the new hash of the pending transaction, under the old nonce.
pub escalation_wrong_nonce :
    (world : World) (t : BundlerTask) (p : PendingTransaction) (bundle : Bundle)
    (max_fee priority_fee tx_hash : ℕ) (signed : List ℕ)
    → Holds escalating t
    → t.tracker.pending ≡ some p
    → p.nonce ≢ 0
    → t.current_bundle ≡ some bundle
    → escalated_fees world.get_base_fee world.get_priority_fee t.tracker
      ≡ some (max_fee, priority_fee)
    → let tx = escalation_tx world t bundle max_fee priority_fee in
      world.sign_transaction tx t.chain_spec.id ≡ ok signed
      → world.submit signed ≡ ok tx_hash
      → (tx.nonce + 1 ≡ p.nonce)
        × (handle_escalating world t ≡ (
          record t { tracker = record_escalation t.tracker tx_hash max_fee priority_fee },
          pending,
        ))
unfolding handle_escalating escalation_tx build_bundle_tx next_nonce
escalation_wrong_nonce world t p bundle max_fee priority_fee tx_hash signed h sent positive b f s
      a =
    (ground (arith), ground (arith))
