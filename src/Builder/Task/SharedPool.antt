-- ===== src/Builder/Task/SharedPool.antt =====
-- What the bundler task does to the pool (crates/builder/src/task.rs): it only removes operations.
use bunzo.Prelude.{ℕ, List, [], ◌∷◌, some, arith, Option-cases, inl, inr}
use bunzo.Prelude.Result.{Result-cases}
use bunzo.Types.Chain.{ChainSpec}
use bunzo.Types.UserOperation.Packing.{PackedUserOperation, UserOperationId, Hasher}
use bunzo.Types.UserOperation as Op
use bunzo.Pool.Store.{OperationPool, remove_by_hash, remove_by_id}
use bunzo.Builder.Proposer.{RejectedOp, make_bundle}
use bunzo.Builder.Tracker.{check_pending}
use bunzo.Builder.Task.State.{
  BundlerTask, World, BundleSenderState, idle, building, submitting, pending, escalating,
  cancelling, confirming, confirmed, abandoned,
}
use bunzo.Builder.Task.{
  handle, handle_idle, handle_building, handle_submitting, handle_pending, handle_escalating,
  handle_cancelling, handle_confirming, handle_terminal, remove_bundled_ops, remove_rejected,
  remove_ops, step,
}

-- A property of pools that every removal keeps.
module _ (Q : OperationPool → Type 0)
    (keep_hash : (p : OperationPool) (h : ℕ) → Q p → Q (remove_by_hash p h).0)
    (keep_id : (p : OperationPool) (i : UserOperationId) → Q p → Q (remove_by_id p i).0) where
  remove_rejected_keeps :
      (p : OperationPool) (rejected : List RejectedOp) → Q p → Q (remove_rejected p rejected)
  unfolding remove_rejected
  remove_rejected_keeps p [] q = q
  remove_rejected_keeps p (x ∷ rejected) q =
      remove_rejected_keeps (remove_by_hash p x.hash).0 rejected (keep_hash p x.hash q)

  remove_ops_keeps :
      (env : Hasher) (c : ChainSpec) (p : OperationPool) (ops : List PackedUserOperation)
      → Q p
      → Q (remove_ops env c p ops)
  unfolding remove_ops
  remove_ops_keeps env c p [] q = q
  remove_ops_keeps env c p (op ∷ ops) q =
      let id = Op.id (Op.unpack env op c.entry_point_v0_7 c.id) in
      remove_ops_keeps env c (remove_by_id p id).0 ops (keep_id p id q)

  remove_bundled_ops_keeps :
      (env : Hasher) (t : BundlerTask) → Q t.pool → Q (remove_bundled_ops env t).pool
  unfolding remove_bundled_ops
  remove_bundled_ops_keeps env t q = elim (Option-cases t.current_bundle) [
    | inl absent ↦ ground arith
    | inr (bundle, present) ↦ ground (arith, remove_ops_keeps env t.chain_spec t.pool bundle.ops q)
  ]

  module _ (env : Hasher) (world : World) (t : BundlerTask) (q : Q t.pool) where
    building_keeps : Q (handle_building world t).0.pool
    unfolding handle_building
    building_keeps =
        elim (Result-cases
          (make_bundle world.proposer_answers (record (t.proposer) { pool = t.pool }))) [
            | inl (bundle, made) ↦
                ground (arith, made, remove_rejected_keeps t.pool bundle.rejected_ops q)
            | inr (e, failed) ↦ ground (arith, failed)
          ]

    submitting_keeps : Q (handle_submitting world t).0.pool
    unfolding handle_submitting
    submitting_keeps = ground arith

    pending_keeps : Q (handle_pending env world t).0.pool
    unfolding handle_pending
    pending_keeps =
        let t' = record t {
          tracker = (check_pending world.get_receipt world.get_nonce t.tracker).0;
        } in
        grind
          (arith, λ (n : ℕ). remove_bundled_ops_keeps env (record t' { mined_block = some n }) q)

    escalating_keeps : Q (handle_escalating world t).0.pool
    unfolding handle_escalating
    escalating_keeps = ground arith

    cancelling_keeps : Q (handle_cancelling world t).0.pool
    unfolding handle_cancelling
    cancelling_keeps = ground arith

    confirming_keeps : Q (handle_confirming world t).0.pool
    unfolding handle_confirming
    confirming_keeps = ground arith

    handle_keeps : (s : BundleSenderState) → Q (handle env world t s).0.pool
    unfolding handle handle_idle handle_terminal
    handle_keeps idle = ground arith
    handle_keeps building = building_keeps
    handle_keeps submitting = submitting_keeps
    handle_keeps pending = pending_keeps
    handle_keeps escalating = escalating_keeps
    handle_keeps cancelling = cancelling_keeps
    handle_keeps confirming = confirming_keeps
    handle_keeps confirmed = q
    handle_keeps abandoned = q

    pub step_keeps : Q (step env world t).pool
    unfolding step
    step_keeps = handle_keeps t.state
