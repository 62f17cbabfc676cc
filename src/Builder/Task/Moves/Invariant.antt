-- ===== src/Builder/Task/Moves/Invariant.antt =====
-- What holds between the moves of the bundler task, whatever other threads do to the pool in
-- between (crates/builder/src/task.rs, `step`).
use bunzo.Prelude.{
  ℕ, ◌≡◌, refl, ap, ◌∙◌, false, List, [], ◌∷◌, ◌++◌, append_assoc, Option, none, some, arith, inl,
  inr, In, unwrap_or, Bool-cases, Option-cases,
}
use bunzo.Prelude.Result.{Result, ok, err, Result-cases}
use bunzo.Types.UserOperation.Packing.{UserOperationId, Hasher}
use bunzo.Types.UserOperation as Op
use bunzo.Provider.Traits.{ProviderError}
use bunzo.Pool.Store.{OperationPool, remove_by_hash, remove_by_id}
use bunzo.Builder.Tracker.{
  PendingTransaction, Receipt, TransactionStatus, check_pending, mined, dropped, pending_status,
}
use bunzo.Builder.Proposer.{Bundle, BundleProposer, make_bundle, is_empty}
use bunzo.Builder.Task.State.{
  BundlerTask, World, BundleSenderState, idle, building, submitting, pending, escalating,
  cancelling, confirming, confirmed, abandoned,
}
use bunzo.Builder.Task.Invariant.{HasBlock, Holds, Holds-pool, step-Holds}
use bunzo.Builder.Task.SharedPool.{step_keeps}
use bunzo.Builder.Task.Moves.{
  Progress, waiting, rejecting, removing, begin, begin_building, begin_pending, move,
}

-- What is left of a list when its first elements are done.
abbrev pub LeftOf {ℓ} : {A : Type ℓ} → List A → List A → Type ℓ
LeftOf {A} rest xs = (done : List A) × (done ++ rest ≡ xs)

-- The bundle was proposed in one of the worlds that the task has seen, over some pool.
abbrev pub Made : List World → BundleProposer → Bundle → Type 0
Made seen proposer bundle =
    (world : World) × (pool : OperationPool) × In world seen
    × (make_bundle world.proposer_answers (record proposer { pool = pool }) ≡ ok bundle)

-- The block is that of a receipt which one of the worlds that the task has seen answered.
abbrev pub Included : List World → Option ℕ → Type 0
Included seen mined_block =
    (world : World) × (tx_hash : ℕ) × (receipt : Receipt) × In world seen
    × (world.get_receipt tx_hash ≡ ok (some receipt))
    × (mined_block ≡ some (unwrap_or receipt.block_number 0))

-- The invariant of each progress. The state of the task is only set at the end of a step.
abbrev pub HoldsAt : List World → Progress → BundlerTask → Type 0
HoldsAt seen waiting t = Holds t.state t
HoldsAt seen (rejecting bundle rest) t =
    (t.state ≡ building)
    × (t.tracker.pending ≡ none)
    × (is_empty bundle ≡ false)
    × Made seen t.proposer bundle
    × LeftOf rest bundle.rejected_ops
HoldsAt seen (removing ops) t =
    (t.state ≡ pending)
    × (t.tracker.pending ≡ none)
    × Included seen t.mined_block
    × ((bundle : Bundle) × (t.current_bundle ≡ some bundle) × LeftOf ops bundle.ops)

LeftOf-tail {ℓ} : {A : Type ℓ} (x : A) (rest xs : List A) → LeftOf (x ∷ rest) xs → LeftOf rest xs
LeftOf-tail x rest xs (done, e) = (done ++ x ∷ [], append_assoc done (x ∷ []) rest ∙ e)

-- The pool has no part in it.
pub HoldsAt-pool :
    (seen : List World) (progress : Progress) (t : BundlerTask) (pool : OperationPool)
    → HoldsAt seen progress t
    → HoldsAt seen progress (record t { pool = pool })
HoldsAt-pool seen waiting t pool h = Holds-pool t.state t pool h
HoldsAt-pool seen (rejecting bundle rest) t pool h = h
HoldsAt-pool seen (removing ops) t pool h = h

HasBlock-of_some : (block : Option ℕ) (n : ℕ) → block ≡ some n → HasBlock block
HasBlock-of_some none n e = absurd (ground arith)
HasBlock-of_some (some m) n e = tt

module _ (env : Hasher) (world : World) (seen : List World) where
  abbrev AfterMove : BundlerTask × Progress → Type 0
  AfterMove s = HoldsAt (world ∷ seen) s.1 s.0

  begin_building-HoldsAt :
      (t : BundlerTask)
      → t.state ≡ building
      → t.tracker.pending ≡ none
      → AfterMove (begin_building world t)
  unfolding begin_building
  begin_building-HoldsAt t at nothing =
      let proposer = record (t.proposer) { pool = t.pool } in
      elim (Result-cases (make_bundle world.proposer_answers proposer)) [
        | inr (e, failed) ↦ rw (begin_building, failed) nothing
        | inl (bundle, made) ↦ elim (Bool-cases (is_empty bundle)) [
          | inl empty ↦ rw (begin_building, made, empty) nothing
          | inr nonempty ↦
              rw (begin_building, made, nonempty)
                (at, nothing, nonempty, (world, t.pool, inl refl, made), ([], refl))
        ]
      ]

  receipt_of :
      (t : BundlerTask) (n : ℕ) (p : PendingTransaction)
      (answer : Result ProviderError (Option Receipt))
      → t.tracker.pending ≡ some p
      → world.get_receipt p.tx_hash ≡ answer
      → (check_pending world.get_receipt world.get_nonce t.tracker).1 ≡ ok (some (mined n))
      → (receipt : Receipt) × (answer ≡ ok (some receipt)) × (n ≡ unwrap_or receipt.block_number 0)
  unfolding check_pending
  receipt_of t n p (ok (some receipt)) is got found = (receipt, refl, ground arith)
  receipt_of t n p (ok none) is got found = absurd (ground arith)
  receipt_of t n p (err e) is got found = absurd (ground arith)

  -- A transaction that the tracker reports as mined has a receipt, and is pending no more.
  mined_clears :
      (t : BundlerTask) (n : ℕ)
      → let (tracker, answer) = check_pending world.get_receipt world.get_nonce t.tracker in
        answer ≡ ok (some (mined n))
        → (tracker.pending ≡ none)
          × ((tx_hash : ℕ) × (receipt : Receipt) × (world.get_receipt tx_hash ≡ ok (some receipt))
              × (n ≡ unwrap_or receipt.block_number 0))
  unfolding check_pending
  mined_clears t n found = elim (Option-cases t.tracker.pending) [
    | inl nothing ↦ absurd (ground arith)
    | inr (p, is) ↦
        let (receipt, got, same) = receipt_of t n p (world.get_receipt p.tx_hash) is refl found in
        (ground arith, (p.tx_hash, receipt, got, same))
  ]

  begin_pending-HoldsAt :
      (t : BundlerTask) (answer : Result ProviderError (Option TransactionStatus))
      → t.state ≡ pending
      → Holds t.state t
      → (check_pending world.get_receipt world.get_nonce t.tracker).1 ≡ answer
      → AfterMove (begin_pending env world t)
  unfolding begin_pending
  begin_pending-HoldsAt t (err e) at h found = rw (begin_pending, found) (step-Holds env world t h)
  begin_pending-HoldsAt t (ok none) at h found =
      rw (begin_pending, found) (step-Holds env world t h)
  begin_pending-HoldsAt t (ok (some dropped)) at h found =
      rw (begin_pending, found) (step-Holds env world t h)
  begin_pending-HoldsAt t (ok (some pending_status)) at h found =
      rw (begin_pending, found) (step-Holds env world t h)
  begin_pending-HoldsAt t (ok (some (mined n))) at h found =
      let cleared = mined_clears t n found in
      let (tx_hash, receipt, got, same) = cleared.1 in
      elim (Option-cases t.current_bundle) [
        | inl absent ↦ rw (begin_pending, found, absent) (cleared.0, tt)
        | inr (bundle, present) ↦
            rw (begin_pending, found, present)
              (
                at,
                cleared.0,
                (world, tx_hash, receipt, inl refl, got, ap some same),
                (bundle, present, ([], refl)),
              )
      ]

  begin-HoldsAt :
      (t : BundlerTask) (s : BundleSenderState)
      → t.state ≡ s
      → Holds s t
      → Holds t.state t
      → AfterMove (begin env world t s)
  unfolding begin
  begin-HoldsAt t building at h h' = begin_building-HoldsAt t at h
  begin-HoldsAt t pending at h h' = begin_pending-HoldsAt t _ at h' refl
  begin-HoldsAt t idle at h h' = step-Holds env world t h'
  begin-HoldsAt t submitting at h h' = step-Holds env world t h'
  begin-HoldsAt t escalating at h h' = step-Holds env world t h'
  begin-HoldsAt t cancelling at h h' = step-Holds env world t h'
  begin-HoldsAt t confirming at h h' = step-Holds env world t h'
  begin-HoldsAt t confirmed at h h' = step-Holds env world t h'
  begin-HoldsAt t abandoned at h h' = step-Holds env world t h'

  seen_Made :
      (t : BundlerTask) (bundle : Bundle)
      → Made seen t.proposer bundle
      → Made (world ∷ seen) t.proposer bundle
  seen_Made t bundle (w, pool, m, made) = (w, pool, inr m, made)

  seen_Included :
      (t : BundlerTask) → Included seen t.mined_block → Included (world ∷ seen) t.mined_block
  seen_Included t (w, tx_hash, receipt, m, got, same) = (w, tx_hash, receipt, inr m, got, same)

  pub move-HoldsAt :
      (t : BundlerTask) (progress : Progress)
      → HoldsAt seen progress t
      → AfterMove (move env world t progress)
  unfolding move
  move-HoldsAt t waiting h = begin-HoldsAt t t.state refl h h
  move-HoldsAt t (rejecting bundle []) h = (h.1, h.2)
  move-HoldsAt t (rejecting bundle (r ∷ rest)) h =
      (h.0, h.1, h.2, seen_Made t bundle h.3, LeftOf-tail r rest bundle.rejected_ops h.4)
  move-HoldsAt t (removing []) h = (h.1, HasBlock-of_some t.mined_block _ h.2.5)
  move-HoldsAt t (removing (op ∷ ops)) h =
      (h.0, h.1, seen_Included t h.2, (h.3.0, h.3.1, LeftOf-tail op ops h.3.0.ops h.3.2))

module _ (env : Hasher) (world : World) where
  -- A property of pools that every removal keeps.
  module _ (Q : OperationPool → Type 0)
      (keep_hash : (p : OperationPool) (h : ℕ) → Q p → Q (remove_by_hash p h).0)
      (keep_id : (p : OperationPool) (i : UserOperationId) → Q p → Q (remove_by_id p i).0) where
    abbrev Keeps : BundlerTask × Progress → Type 0
    Keeps s = Q s.0.pool

    begin_preserves :
        (t : BundlerTask) (s : BundleSenderState) → Q t.pool → Keeps (begin env world t s)
    unfolding begin begin_building begin_pending
    begin_preserves t building q = ground arith
    begin_preserves t pending q = ground (arith, step_keeps Q keep_hash keep_id env world t q)
    begin_preserves t idle q = step_keeps Q keep_hash keep_id env world t q
    begin_preserves t submitting q = step_keeps Q keep_hash keep_id env world t q
    begin_preserves t escalating q = step_keeps Q keep_hash keep_id env world t q
    begin_preserves t cancelling q = step_keeps Q keep_hash keep_id env world t q
    begin_preserves t confirming q = step_keeps Q keep_hash keep_id env world t q
    begin_preserves t confirmed q = step_keeps Q keep_hash keep_id env world t q
    begin_preserves t abandoned q = step_keeps Q keep_hash keep_id env world t q

    pub move_preserves :
        (t : BundlerTask) (progress : Progress) → Q t.pool → Keeps (move env world t progress)
    unfolding move
    move_preserves t waiting q = begin_preserves t t.state q
    move_preserves t (rejecting bundle []) q = q
    move_preserves t (rejecting bundle (r ∷ rest)) q = keep_hash t.pool r.hash q
    move_preserves t (removing []) q = q
    move_preserves t (removing (op ∷ ops)) q =
        let uo = Op.unpack env op t.chain_spec.entry_point_v0_7 t.chain_spec.id in
        keep_id t.pool (Op.id uo) q
