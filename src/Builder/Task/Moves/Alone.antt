-- ===== src/Builder/Task/Moves/Alone.antt =====
-- The moves of one step, with no other thread in between, are the step
-- (crates/builder/src/task.rs, `step`).
use bunzo.Prelude.{
  ℕ, suc, ◌+◌, ◌≡◌, refl, ap, ◌∙◌, List, [], ◌∷◌, Option, none, some, arith, length, inl, inr,
  Bool-cases, Option-cases,
}
use bunzo.Prelude.Result.{Result, ok, err, Result-cases}
use bunzo.Types.UserOperation.Packing.{PackedUserOperation, Hasher}
use bunzo.Types.UserOperation as Op
use bunzo.Provider.Traits.{ProviderError}
use bunzo.Pool.Store.{remove_by_hash, remove_by_id}
use bunzo.Builder.Tracker.{TransactionStatus, check_pending, mined, dropped, pending_status}
use bunzo.Builder.Proposer.{Bundle, RejectedOp, make_bundle, is_empty}
use bunzo.Builder.Task.State.{
  BundlerTask, World, BundleSenderState, idle, building, submitting, pending, escalating,
  cancelling, confirming, confirmed, abandoned,
}
use bunzo.Builder.Task.{
  step, handle, handle_building, handle_pending, remove_bundled_ops, remove_rejected, remove_ops,
}
use bunzo.Builder.Task.Moves.{
  Progress, waiting, rejecting, removing, begin, begin_building, begin_pending, move, moves,
  moves_left,
}

module _ (env : Hasher) (world : World) where
  moves_rejecting :
      (t : BundlerTask) (bundle : Bundle) (rest : List RejectedOp)
      → moves env world (suc (length rest)) (t, rejecting bundle rest) ≡ (
        record t {
          pool = remove_rejected t.pool rest;
          current_bundle = some bundle;
          state = submitting;
        },
        waiting,
      )
  unfolding moves move remove_rejected
  moves_rejecting t bundle [] = refl
  moves_rejecting t bundle (r ∷ rest) =
      moves_rejecting (record t { pool = (remove_by_hash t.pool r.hash).0 }) bundle rest

  moves_removing :
      (t : BundlerTask) (ops : List PackedUserOperation)
      → moves env world (suc (length ops)) (t, removing ops)
        ≡ (record t { pool = remove_ops env t.chain_spec t.pool ops; state = confirming }, waiting)
  unfolding moves move remove_ops
  moves_removing t [] = refl
  moves_removing t (op ∷ ops) =
      let uo = Op.unpack env op t.chain_spec.entry_point_v0_7 t.chain_spec.id in
      moves_removing (record t { pool = (remove_by_id t.pool (Op.id uo)).0 }) ops

  -- What a move and the moves after it leave.
  abbrev Finishes : BundlerTask × Progress → BundlerTask → Type 0
  Finishes s t = moves env world (moves_left s.1) s ≡ (t, waiting)

  moves-suc :
      (n : ℕ) (s : BundlerTask × Progress) → moves env world (n + 1) s ≡ moves env world (suc n) s
  moves-suc n s = ap (λ k. moves env world k s) (omega arith)

  building_Finishes :
      (t : BundlerTask) → t.state ≡ building → Finishes (begin_building world t) (step env world t)
  unfolding begin_building moves_left step handle handle_building moves
  building_Finishes t at =
      elim (Result-cases
        (make_bundle world.proposer_answers (record (t.proposer) { pool = t.pool }))) [
          | inr (e, failed) ↦ rw (begin_building, step, handle, at, handle_building, failed) refl
          | inl (bundle, made) ↦ elim (Bool-cases (is_empty bundle)) [
            | inl empty ↦ rw (begin_building, step, handle, at, handle_building, made, empty) refl
            | inr nonempty ↦
                rw (begin_building, step, handle, at, handle_building, made, nonempty)
                  (moves-suc (length bundle.rejected_ops) (t, rejecting bundle bundle.rejected_ops)
                    ∙ moves_rejecting t bundle bundle.rejected_ops)
          ]
        ]

  -- By what the tracker answers.
  pending_case :
      (t : BundlerTask) (answer : Result ProviderError (Option TransactionStatus))
      → t.state ≡ pending
      → (check_pending world.get_receipt world.get_nonce t.tracker).1 ≡ answer
      → Finishes (begin_pending env world t) (step env world t)
  unfolding begin_pending moves_left step handle handle_pending remove_bundled_ops moves
  pending_case t (err e) at found = rw (begin_pending, found) refl
  pending_case t (ok none) at found = rw (begin_pending, found) refl
  pending_case t (ok (some dropped)) at found = rw (begin_pending, found) refl
  pending_case t (ok (some pending_status)) at found = rw (begin_pending, found) refl
  pending_case t (ok (some (mined n))) at found =
      let t' = record t {
        tracker = (check_pending world.get_receipt world.get_nonce t.tracker).0;
        mined_block = some n;
      } in
      elim (Option-cases t.current_bundle) [
        | inl absent ↦
            rw (begin_pending, step, handle, at, handle_pending, found, remove_bundled_ops, absent)
              refl
        | inr (bundle, present) ↦
            rw (begin_pending, step, handle, at, handle_pending, found, remove_bundled_ops, present)
              (moves-suc (length bundle.ops) (t', removing bundle.ops)
                ∙ moves_removing t' bundle.ops)
      ]

  begin-Finishes :
      (t : BundlerTask) (s : BundleSenderState)
      → t.state ≡ s
      → Finishes (begin env world t s) (step env world t)
  unfolding begin moves_left moves
  begin-Finishes t idle at = refl
  begin-Finishes t building at = building_Finishes t at
  begin-Finishes t submitting at = refl
  begin-Finishes t pending at = pending_case t _ at refl
  begin-Finishes t escalating at = refl
  begin-Finishes t cancelling at = refl
  begin-Finishes t confirming at = refl
  begin-Finishes t confirmed at = refl
  begin-Finishes t abandoned at = refl

-- A step of the bundler that no other thread interrupts does in its moves what `step` does: the
-- first move, and then as many as its loop has left, change the task and its pool as the step
-- does, and the task waits for the next tick.
pub moves-step :
    (env : Hasher) (world : World) (t : BundlerTask)
    → let first = move env world t waiting in
      moves env world (moves_left first.1) first ≡ (step env world t, waiting)
unfolding move
moves-step env world t = begin-Finishes env world t t.state refl
