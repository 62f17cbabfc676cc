-- ===== src/Program/Interleaved/Ends.antt =====
-- The steps of the bundler end (bin/bunzo/src/main.rs, with crates/builder/src/task.rs), however the
-- threads come between their moves.
use bunzo.Prelude.{
  ℕ, zero, suc, ◌+◌, ◌≤◌, ◌≡◌, refl, ap, sym, subst, ◌∙◌, List, [], ◌∷◌, none, some, arith, length,
  inl, inr, Option, Option-cases, Bool-cases, get_elem?, ◌==◌, ◌⊎◌,
}
use bunzo.Prelude.Result.{Result, ok, err, Result-cases}
use bunzo.Types.Chain.{is_entry_point}
use bunzo.Types.UserOperation.Packing.{UserOperation, Hasher}
use bunzo.Types.UserOperation as Op
use bunzo.Pool.Reputation.{Float}
use bunzo.Pool.Validation.{validate_sync}
use bunzo.Provider.Traits.{ProviderError}
use bunzo.Builder.Tracker.{TransactionStatus, mined, dropped, pending_status, check_pending}
use bunzo.Builder.Proposer.{
  Answers, Bundle, BundleProposer, make_bundle, propose, candidates, is_empty,
}
use bunzo.Builder.Proposer.Selection.{IsMadeOf, make_bundle_made}
use bunzo.Builder.Task.State.{
  BundlerTask, World, BundleSenderState, idle, building, submitting, pending, escalating,
  cancelling, confirming, confirmed, abandoned,
}
use bunzo.Builder.Task.Moves.{
  Progress, waiting, rejecting, removing, begin, begin_building, begin_pending, move, moves_left,
}
use bunzo.Program.Interleaved.{
  System, Event, submits, adds, moves, submit, add_validated, move_task, step, run,
}

-- A move in a loop goes on by one element, whatever the pool has become.
move_left :
    (env : Hasher) (world : World) (t : BundlerTask) (progress : Progress) (n : ℕ)
    → moves_left progress ≡ suc n
    → moves_left (move env world t progress).1 ≡ n
unfolding move moves_left
move_left env world t waiting n e = absurd (ground arith)
move_left env world t (rejecting bundle []) n e = omega (arith, e)
move_left env world t (rejecting bundle (rejected ∷ rest)) n e = omega (arith, e)
move_left env world t (removing []) n e = omega (arith, e)
move_left env world t (removing (op ∷ ops)) n e = omega (arith, e)

-- The rounds of a loop that a step begins: a proposal rejects one operation in each retry at most,
-- and a mined bundle has its operations.
abbrev pub Rounds : BundlerTask → ℕ → Type 0
Rounds t n =
    (n ≤ t.proposer.max_retries + 1)
    ⊎ ((bundle : Bundle) × (t.current_bundle ≡ some bundle) × (n ≤ length bundle.ops + 1))

few_rejected :
    (env : Answers) (b : BundleProposer) (bundle : Bundle)
    → make_bundle env b ≡ ok bundle
    → length bundle.rejected_ops ≤ b.max_retries
unfolding make_bundle propose
few_rejected env b bundle made = elim (Result-cases env.current_fees) [
  | inr (e, bad) ↦ absurd (ground arith)
  | inl (fees, good) ↦ elim (Result-cases env.base_fee) [
    | inr (e, bad) ↦ absurd (ground arith)
    | inl (base_fee, asked) ↦
        let all : IsMadeOf (candidates b base_fee) b.max_retries bundle =
          make_bundle_made env b base_fee bundle asked made in
        all.few_rejected
  ]
]

module _ (env : Hasher) (world : World) where
  building_Rounds : (t : BundlerTask) → Rounds t (moves_left (begin_building world t).1)
  unfolding begin_building moves_left
  building_Rounds t =
      let proposer = record (t.proposer) { pool = t.pool } in
      elim (Result-cases (make_bundle world.proposer_answers proposer)) [
        | inr (e, failed) ↦ rw (begin_building, failed) (inl (omega arith))
        | inl (bundle, made) ↦ elim (Bool-cases (is_empty bundle)) [
          | inl empty ↦ rw (begin_building, made, empty) (inl (omega arith))
          | inr nonempty ↦
              rw (begin_building, made, nonempty)
                (inl (omega (arith, few_rejected world.proposer_answers proposer bundle made)))
        ]
      ]

  pending_Rounds :
      (t : BundlerTask) (answer : Result ProviderError (Option TransactionStatus))
      → (check_pending world.get_receipt world.get_nonce t.tracker).1 ≡ answer
      → Rounds t (moves_left (begin_pending env world t).1)
  unfolding begin_pending moves_left
  pending_Rounds t (err e) found = rw (begin_pending, found) (inl (omega arith))
  pending_Rounds t (ok none) found = rw (begin_pending, found) (inl (omega arith))
  pending_Rounds t (ok (some dropped)) found = rw (begin_pending, found) (inl (omega arith))
  pending_Rounds t (ok (some pending_status)) found = rw (begin_pending, found) (inl (omega arith))
  pending_Rounds t (ok (some (mined n))) found = elim (Option-cases t.current_bundle) [
    | inl absent ↦ rw (begin_pending, found, absent) (inl (omega arith))
    | inr (bundle, present) ↦ rw (begin_pending, found, present) (inr (bundle, refl, omega arith))
  ]

  begin-Rounds :
      (t : BundlerTask) (state : BundleSenderState)
      → Rounds t (moves_left (begin env world t state).1)
  unfolding begin moves_left
  begin-Rounds t idle = inl (omega arith)
  begin-Rounds t building = building_Rounds t
  begin-Rounds t submitting = inl (omega arith)
  begin-Rounds t pending = pending_Rounds t _ refl
  begin-Rounds t escalating = inl (omega arith)
  begin-Rounds t cancelling = inl (omega arith)
  begin-Rounds t confirming = inl (omega arith)
  begin-Rounds t confirmed = inl (omega arith)
  begin-Rounds t abandoned = inl (omega arith)

no_moves_left : (progress : Progress) → moves_left progress ≡ 0 → progress ≡ waiting
unfolding moves_left
no_moves_left waiting e = refl
no_moves_left (rejecting bundle rest) e = absurd (omega (arith, e))
no_moves_left (removing ops) e = absurd (omega (arith, e))

-- How many moves there are among some events.
abbrev pub moves_among : {fl : Float} → List (Event fl) → ℕ
moves_among [] = 0
moves_among (submits _ _ ∷ events) = moves_among events
moves_among (adds _ ∷ events) = moves_among events
moves_among (moves _ ∷ events) = suc (moves_among events)

module _ (fl : Float) (env : Hasher) where
  -- A submission does not touch the bundler.
  submit_bundler :
      (s : System fl) (uo : UserOperation) (entry_point : ℕ)
      → ((submit fl env s uo entry_point).progress ≡ s.progress)
        × ((submit fl env s uo entry_point).program.bundler ≡ s.program.bundler)
  unfolding submit is_entry_point
  submit_bundler s uo entry_point =
      let api = s.program.api in
      let uo' = Op.set_context env uo entry_point api.chain_spec.id in
      elim (Bool-cases (entry_point == api.chain_spec.entry_point_v0_7)) [
        | inr unknown ↦ rw (submit, is_entry_point, unknown) (refl, refl)
        | inl known ↦
            elim (Result-cases
              (validate_sync fl api.validator (some api.op_pool) uo' api.base_fee).1) [
                | inr (e, bad) ↦ rw (submit, is_entry_point, known, bad) (refl, refl)
                | inl (u, good) ↦ rw (submit, is_entry_point, known, good) (refl, refl)
              ]
      ]

  add_bundler :
      (s : System fl) (n : ℕ)
      → ((add_validated fl env s n).progress ≡ s.progress)
        × ((add_validated fl env s n).program.bundler ≡ s.program.bundler)
  unfolding add_validated
  add_bundler s n = elim (Option-cases (get_elem? s.in_flight n)) [
    | inl missing ↦ rw (add_validated, missing) (refl, refl)
    | inr (v, present) ↦ rw (add_validated, present) (refl, refl)
  ]

  -- With `n` rounds of its loop left, `n` moves take the bundler to the end of its step.
  run_ends :
      (events : List (Event fl)) (s : System fl) (t : BundlerTask) (n : ℕ)
      → s.program.bundler ≡ some t
      → moves_left s.progress ≡ n
      → moves_among events ≡ n
      → moves_left (run fl env s events).progress ≡ 0
  unfolding run step move_task
  run_ends [] s t n b left among = left ∙ sym among
  run_ends (submits uo entry_point ∷ events) s t n b left among =
      let (same, kept) = submit_bundler s uo entry_point in
      run_ends events (submit fl env s uo entry_point) t n (kept ∙ b) (ap moves_left same ∙ left)
        among
  run_ends (adds m ∷ events) s t n b left among =
      let (same, kept) = add_bundler s m in
      run_ends events (add_validated fl env s m) t n (kept ∙ b) (ap moves_left same ∙ left) among
  run_ends (moves world ∷ events) s t zero b left among = absurd (ground arith)
  run_ends (moves world ∷ events) s t (suc n) b left among =
      let on_pool = record t { pool = s.program.api.op_pool } in
      let moved = move env world on_pool s.progress in
      rw (run, step, b)
        (run_ends events (move_task fl env world s t) moved.0 n refl
          (move_left env world on_pool s.progress n left) (omega (arith, among)))

  -- Each step of the bundler ends, whatever comes in between: once it begins, there is a number of
  -- further moves after which the bundler waits for its next tick, however many submissions are
  -- validated and added among them and whatever the pool becomes. The number is at most one above
  -- the retries of the proposer, or one above the operations of the current bundle.
  pub step_ends :
      (s : System fl) (t : BundlerTask) (world : World)
      → s.program.bundler ≡ some t
      → s.progress ≡ waiting
      → (n : ℕ) × Rounds t n
        × ((events : List (Event fl))
            → moves_among events ≡ n
            → (run fl env s (moves world ∷ events)).progress ≡ waiting)
  unfolding run step move_task move
  step_ends s t world b waits =
      let on_pool = record t { pool = s.program.api.op_pool } in
      let moved = move env world on_pool s.progress in
      let rounds : Rounds t (moves_left (move env world on_pool waiting).1) =
        begin-Rounds env world on_pool t.state in
      (
        moves_left moved.1,
        subst (λ p. Rounds t (moves_left (move env world on_pool p).1)) (sym waits) rounds,
        λ events among. no_moves_left _ (
            rw (run, step, b)
              (run_ends events (move_task fl env world s t) moved.0 (moves_left moved.1) refl refl
                among)),
      )
