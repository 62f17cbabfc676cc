-- ===== src/Builder/Task/Moves.antt =====
-- One step of the bundler task (crates/builder/src/task.rs, `step`) as a sequence of moves, each of
-- which makes at most one access of the pool, for a pool that other threads change at the same time.
-- `handle_building` reads the pool once, waits for the simulation, and then removes the rejected
-- operations one by one; `handle_pending` waits for the node, and then removes the operations of a
-- mined bundle one by one. The pool of the task is the shared pool at the time of the move.
pub mod Alone
pub mod Pool
pub mod Invariant
use bunzo.Prelude.{ℕ, zero, suc, ◌+◌, List, [], ◌∷◌, none, some, if◌then◌else◌, length}
use bunzo.Prelude.Result.{ok, err}
use bunzo.Types.UserOperation.Packing.{PackedUserOperation, Hasher}
use bunzo.Types.UserOperation as Op
use bunzo.Pool.Store.{remove_by_hash, remove_by_id}
use bunzo.Builder.Tracker.{check_pending, mined}
use bunzo.Builder.Proposer.{Bundle, RejectedOp, make_bundle, is_empty}
use bunzo.Builder.Task.State.{
  BundlerTask, World, BundleSenderState, idle, building, submitting, pending, confirming,
}
use bunzo.Builder.Task.{step}

-- The task waits for its tick, or it is in one of its two loops, with what the loop has left.
pub data Progress : Type 0 where
  waiting : Progress
  rejecting : Bundle → List RejectedOp → Progress
  removing : List PackedUserOperation → Progress

-- `handle_building` up to its loop: what is proposed rests on the pool as it is now.
unfoldable pub begin_building : World → BundlerTask → BundlerTask × Progress
begin_building world t =
    elim (make_bundle world.proposer_answers (record (t.proposer) { pool = t.pool })) [
      | err e ↦ (record t { state = idle }, waiting)
      | ok bundle ↦
          if is_empty bundle
          then (record t { state = idle }, waiting)
          else (t, rejecting bundle bundle.rejected_ops)
    ]

-- `handle_pending` up to the loop of `remove_bundled_ops`.
unfoldable pub begin_pending : Hasher → World → BundlerTask → BundlerTask × Progress
begin_pending env world t =
    let checked = check_pending world.get_receipt world.get_nonce t.tracker in
    elim checked.1 [
      | ok (some (mined block_number)) ↦
          let t' = record t { tracker = checked.0; mined_block = some block_number } in
          elim t.current_bundle [
            | none ↦ (record t' { state = confirming }, waiting)
            | some bundle ↦ (t', removing bundle.ops)
          ]
      | other ↦ (step env world t, waiting)
    ]

-- Every other handler accesses the pool once at most.
unfoldable pub begin : Hasher → World → BundlerTask → BundleSenderState → BundlerTask × Progress
begin env world t building = begin_building world t
begin env world t pending = begin_pending env world t
begin env world t other = (step env world t, waiting)

unfoldable pub move : Hasher → World → BundlerTask → Progress → BundlerTask × Progress
unfolding begin
move env world t waiting = begin env world t t.state
move env world t (rejecting bundle []) =
    (record t { current_bundle = some bundle; state = submitting }, waiting)
move env world t (rejecting bundle (rejected ∷ rest)) =
    (record t { pool = (remove_by_hash t.pool rejected.hash).0 }, rejecting bundle rest)
move env world t (removing []) = (record t { state = confirming }, waiting)
move env world t (removing (op ∷ ops)) =
    let uo = Op.unpack env op t.chain_spec.entry_point_v0_7 t.chain_spec.id in
    (record t { pool = (remove_by_id t.pool (Op.id uo)).0 }, removing ops)

-- Moves with no other thread in between.
unfoldable pub moves : Hasher → World → ℕ → BundlerTask × Progress → BundlerTask × Progress
moves env world zero s = s
moves env world (suc n) s = moves env world n (move env world s.0 s.1)

-- How many moves the loop has left.
unfoldable pub moves_left : Progress → ℕ
moves_left waiting = 0
moves_left (rejecting bundle rest) = length rest + 1
moves_left (removing ops) = length ops + 1
