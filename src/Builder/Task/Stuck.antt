-- ===== src/Builder/Task/Stuck.antt =====
-- Operations that no simulation accepts (crates/builder/src/task.rs, `handle_building`, with
-- crates/builder/src/proposer.rs, `make_bundle`).
use Prim.Native.String.{String}
use bunzo.Prelude.{
  ℕ, zero, suc, ◌≤◌, ◌==◌, ◌≡◌, refl, sym, subst, ◌⊎◌, inl, inr, List, [], ◌∷◌, ◌++◌, arith, length,
  length-take, length-keep-le, take, All, Bool-cases,
}
use bunzo.Prelude.Result.{err, Result-cases}
use bunzo.Types.Gas.{GasFees, covers}
use bunzo.Types.UserOperation as Op
use bunzo.Types.UserOperation.Packing.{Hasher}
use bunzo.Pool.Entry.{PoolEntry}
use bunzo.Pool.Store.{size, best_operations}
use bunzo.Builder.Proposer.{
  Answers, BundleProposer, ProposerError, RejectedOp, provider, no_operations, attempt_once, retry,
  propose, candidates, make_bundle, remove_at,
}
use bunzo.Builder.Proposer.Unverified.{AlwaysFails}
use bunzo.Builder.Task.State.{BundlerTask, World, idle, building}
use bunzo.Builder.Task.{handle, handle_idle, handle_building, step, run}

module _ (env : Answers) (b : BundleProposer) (reason : String) (bad : AlwaysFails env reason) where
  retry-none :
      (fees : GasFees) (left attempt : ℕ) (ops : List PoolEntry) (rejected : List RejectedOp)
      → length ops ≤ left
      → retry env b fees left attempt ops rejected ≡ err no_operations
  unfolding retry attempt_once remove_at
  retry-none fees zero attempt [] rejected h = refl
  retry-none fees (suc left) attempt [] rejected h = refl
  retry-none fees zero attempt (op ∷ ops) rejected h = absurd (omega arith)
  retry-none fees (suc left) attempt (op ∷ ops) rejected h =
      rw (bad, retry, attempt_once)
        (retry-none fees left (suc attempt) ops
          (rejected ++ record { hash = op.hash; reason = reason } ∷ []) (omega arith))

  propose-none :
      (fees : GasFees) (start : List PoolEntry)
      → length start ≤ b.max_retries
      → propose env b fees start ≡ err no_operations
  unfolding propose
  propose-none fees [] h = refl
  propose-none fees (op ∷ ops) h = retry-none fees b.max_retries 0 (op ∷ ops) [] h

  length-candidates-le : (base_fee : ℕ) → length (candidates b base_fee) ≤ length b.pool.ordered
  unfolding candidates best_operations
  length-candidates-le base_fee = omega (
    arith,
    length-keep-le {0}
        (λ e. covers (Op.gas_fees e.uo) base_fee b.chain_spec.min_max_priority_fee_per_gas)
        (take b.chain_spec.max_bundle_size b.pool.ordered),
    length-take {0} b.chain_spec.max_bundle_size b.pool.ordered,
  )

  make_bundle-none :
      length b.pool.ordered ≤ b.max_retries → (e : ProposerError) × (make_bundle env b ≡ err e)
  unfolding make_bundle
  make_bundle-none few = elim (Result-cases env.current_fees) [
    | inr (e, failed) ↦ (provider e, ground arith)
    | inl (fees, told) ↦ elim (Result-cases env.base_fee) [
      | inr (e, failed) ↦ (provider e, ground arith)
      | inl (base_fee, known) ↦
          let none_left =
            propose-none fees (candidates b base_fee)
              (omega (arith, length-candidates-le base_fee)) in
          (no_operations, rw (told, known, make_bundle) none_left)
    ]
  ]

-- The task that is idle or building, and has changed in nothing else.
abbrev pub Waits : BundlerTask → BundlerTask → Type 0
Waits t t' = (t' ≡ record t { state = idle }) ⊎ (t' ≡ record t { state = building })

-- A world in which every simulation says that the first operation fails.
abbrev pub Refuses : World → Type 0
Refuses world = (reason : String) × AlwaysFails world.proposer_answers reason

module _ (env : Hasher) (t : BundlerTask)
    (few : length t.pool.ordered ≤ t.proposer.max_retries) where
  idle-Waits : (world : World) → Waits t (step env world (record t { state = idle }))
  unfolding step handle handle_idle
  idle-Waits world = elim (Bool-cases (size t.pool == 0)) [
    | inl none_there ↦ inl (rw (step, handle, handle_idle, none_there) refl)
    | inr some_there ↦ inr (rw (step, handle, handle_idle, some_there) refl)
  ]

  building-Waits :
      (world : World) → Refuses world → Waits t (step env world (record t { state = building }))
  unfolding step handle handle_building
  building-Waits world (reason, bad) =
      let on_pool = record (t.proposer) { pool = t.pool } in
      let (e, failed) = make_bundle-none world.proposer_answers on_pool reason bad few in
      inl (rw (step, handle, handle_building, failed) refl)

  run-Waits :
      (t' : BundlerTask) (worlds : List World)
      → Waits t t'
      → All Refuses worlds
      → Waits t (run env t' worlds)
  unfolding run
  run-Waits t' [] w all = w
  run-Waits t' (world ∷ worlds) (inl e) all =
      run-Waits (step env world t') worlds
        (subst (λ x. Waits t (step env world x)) (sym e) (idle-Waits world)) all.1
  run-Waits t' (world ∷ worlds) (inr e) all =
      run-Waits (step env world t') worlds
        (subst (λ x. Waits t (step env world x)) (sym e) (building-Waits world all.0)) all.1

-- Operations that no simulation accepts are never dropped where they are few: when the pool of an
-- idle bundler holds at most as many operations as the proposer has retries, and every
-- simulation says that the first operation fails, then after any number of ticks the bundler is
-- idle or building, and neither its pool nor anything else of it has changed.
pub refused_stays :
    (env : Hasher) (t : BundlerTask) (worlds : List World)
    → t.state ≡ idle
    → length t.pool.ordered ≤ t.proposer.max_retries
    → All Refuses worlds
    → (run env t worlds ≡ record t { state = idle })
      ⊎ (run env t worlds ≡ record t { state = building })
refused_stays env t worlds at few all =
    run-Waits env t few t worlds (inl (λ i. record t { state = at i })) all
