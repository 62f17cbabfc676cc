-- ===== src/Builder/Task/Passing.antt =====
-- The steps of a bundle that goes from a proposal to a tracked transaction
-- (crates/builder/src/task.rs, `handle_building` and `handle_submitting`).
use bunzo.Prelude.{ℕ, ◌≡◌, refl, inl, inr, List, some, arith, Bool-cases}
use bunzo.Prelude.Result.{ok, Result-cases}
use bunzo.Types.UserOperation.Packing.{Hasher}
use bunzo.Builder.Tracker.{next_nonce, record_submission}
use bunzo.Builder.Proposer.{Bundle, make_bundle, is_empty}
use bunzo.Builder.Task.State.{BundlerTask, World, building, submitting, pending}
use bunzo.Builder.Task.{
  build_bundle_tx, handle, handle_building, handle_submitting, remove_rejected,
}
use bunzo.Builder.Task

-- A step in which a proposal goes on to the submission.
pub building-submitting :
    (env : Hasher) (world : World) (t : BundlerTask)
    → t.state ≡ building
    → (Task.step env world t).state ≡ submitting
    → (bundle : Bundle) × (make_bundle world.proposer_answers
          (record (t.proposer) { pool = t.pool })
        ≡ ok bundle)
      × (Task.step env world t ≡ record t {
        pool = remove_rejected t.pool bundle.rejected_ops;
        current_bundle = some bundle;
        state = submitting;
      })
unfolding Task.step handle handle_building
building-submitting env world t at e =
    elim (Result-cases
      (make_bundle world.proposer_answers (record (t.proposer) { pool = t.pool }))) [
        | inr (x, failed) ↦ absurd (ground (arith, at))
        | inl (bundle, made) ↦ elim (Bool-cases (is_empty bundle)) [
          | inl empty ↦ absurd (ground (arith, at))
          | inr nonempty ↦
              (bundle, made, rw (Task.step, handle, at, handle_building, made, nonempty) refl)
        ]
      ]

-- A step in which a submission is accepted.
pub submitting-pending :
    (env : Hasher) (world : World) (t : BundlerTask) (bundle : Bundle)
    → t.state ≡ submitting
    → t.current_bundle ≡ some bundle
    → (Task.step env world t).state ≡ pending
    → (raw : List ℕ) × (hash : ℕ) × (world.sign_transaction
          (build_bundle_tx world t bundle (next_nonce t.tracker))
          t.chain_spec.id
        ≡ ok raw)
      × (world.submit raw ≡ ok hash)
      × ((Task.step env world t).tracker
          ≡ record_submission world.now t.tracker hash
              (next_nonce t.tracker)
              bundle.gas_fees.max_fee_per_gas
              bundle.gas_fees.max_priority_fee_per_gas)
unfolding Task.step handle handle_submitting
submitting-pending env world t bundle at present e =
    let nonce = next_nonce t.tracker in
    elim (Result-cases
      (world.sign_transaction (build_bundle_tx world t bundle nonce) t.chain_spec.id)) [
        | inr (x, unsigned) ↦ absurd (ground (arith, at))
        | inl (raw, signed) ↦ elim (Result-cases (world.submit raw)) [
          | inr (x, refused) ↦ absurd (ground (arith, at))
          | inl (hash, sent) ↦ (
            raw,
            hash,
            signed,
            sent,
            rw (Task.step, handle, at, handle_submitting, present, signed, sent) refl,
          )
        ]
      ]
