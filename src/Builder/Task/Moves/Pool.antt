-- ===== src/Builder/Task/Moves/Pool.antt =====
-- Only the loops of the bundler task change the pool (crates/builder/src/task.rs).
use bunzo.Prelude.{◌≡◌, refl, ap, ◌∙◌, Option, none, some, arith}
use bunzo.Prelude.Result.{Result, ok, err}
use bunzo.Types.UserOperation.Packing.{Hasher}
use bunzo.Provider.Traits.{ProviderError}
use bunzo.Builder.Tracker.{TransactionStatus, check_pending, mined, dropped, pending_status}
use bunzo.Builder.Task.State.{
  BundlerTask, World, BundleSenderState, idle, building, submitting, pending, escalating,
  cancelling, confirming, confirmed, abandoned,
}
use bunzo.Builder.Task.{
  step, handle, handle_idle, handle_submitting, handle_pending, handle_escalating,
  handle_cancelling, handle_confirming, handle_terminal,
}
use bunzo.Builder.Task.Moves.{waiting, begin, begin_building, begin_pending, move}

module _ (env : Hasher) (world : World) (t : BundlerTask) where
  step_pool :
      (s : BundleSenderState)
      → t.state ≡ s
      → (handle env world t s).0.pool ≡ t.pool
      → (step env world t).pool ≡ t.pool
  unfolding step
  step_pool s at same = ap (λ x. (handle env world t x).0.pool) at ∙ same

  submitting_pool : (handle_submitting world t).0.pool ≡ t.pool
  unfolding handle_submitting
  submitting_pool = ground arith

  escalating_pool : (handle_escalating world t).0.pool ≡ t.pool
  unfolding handle_escalating
  escalating_pool = ground arith

  cancelling_pool : (handle_cancelling world t).0.pool ≡ t.pool
  unfolding handle_cancelling
  cancelling_pool = ground arith

  confirming_pool : (handle_confirming world t).0.pool ≡ t.pool
  unfolding handle_confirming
  confirming_pool = ground arith

  begin_building_pool : (begin_building world t).0.pool ≡ t.pool
  unfolding begin_building
  begin_building_pool = ground arith

  begin_pending_pool :
      (answer : Result ProviderError (Option TransactionStatus))
      → t.state ≡ pending
      → (check_pending world.get_receipt world.get_nonce t.tracker).1 ≡ answer
      → (begin_pending env world t).0.pool ≡ t.pool
  unfolding begin_pending handle handle_pending
  begin_pending_pool (err e) at found =
      rw (begin_pending, found) (step_pool pending at (ground arith))
  begin_pending_pool (ok none) at found =
      rw (begin_pending, found) (step_pool pending at (ground arith))
  begin_pending_pool (ok (some dropped)) at found =
      rw (begin_pending, found) (step_pool pending at (ground arith))
  begin_pending_pool (ok (some pending_status)) at found =
      rw (begin_pending, found) (step_pool pending at (ground arith))
  begin_pending_pool (ok (some (mined n))) at found = ground arith

  begin_pool : (s : BundleSenderState) → t.state ≡ s → (begin env world t s).0.pool ≡ t.pool
  unfolding begin handle handle_idle handle_terminal
  begin_pool idle at = step_pool idle at (ground arith)
  begin_pool building at = begin_building_pool
  begin_pool submitting at = step_pool submitting at submitting_pool
  begin_pool pending at = begin_pending_pool _ at refl
  begin_pool escalating at = step_pool escalating at escalating_pool
  begin_pool cancelling at = step_pool cancelling at cancelling_pool
  begin_pool confirming at = step_pool confirming at confirming_pool
  begin_pool confirmed at = step_pool confirmed at refl
  begin_pool abandoned at = step_pool abandoned at refl

  pub waiting_pool : (move env world t waiting).0.pool ≡ t.pool
  unfolding move
  waiting_pool = begin_pool t.state refl
