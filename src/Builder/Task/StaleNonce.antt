-- ===== src/Builder/Task/StaleNonce.antt =====
-- A nonce that the chain has already used (crates/builder/src/task.rs, with tracker.rs: only
-- `check_pending` moves the nonce, and only when a transaction is pending).
use bunzo.Prelude.{
  ℕ, ◌≡◌, refl, ap, sym, subst, ◌∙◌, List, [], ◌∷◌, none, some, arith, All, Option-cases, inl, inr,
}
use bunzo.Prelude.Result.{ok, err, Result-cases}
use bunzo.Types.UserOperation.Packing.{Hasher}
use bunzo.Builder.Strategy.{SubmitError}
use bunzo.Builder.Proposer.{Bundle}
use bunzo.Builder.Tracker.{
  PendingTransaction, TransactionTracker, escalated_fees, clear_pending, next_nonce,
}
use bunzo.Builder.Task.State.{
  BundlerTask, World, BundleSenderState, idle, building, submitting, pending, escalating,
  cancelling, confirming, confirmed, abandoned,
}
use bunzo.Builder.Task.{
  build_bundle_tx, handle, handle_idle, handle_building, handle_submitting, handle_escalating,
  handle_confirming, handle_terminal, step, run,
}

-- A world that takes no bundle with the nonce.
abbrev pub RefusesNonce : ℕ → World → Type 0
RefusesNonce nonce world =
    (t : BundlerTask) (bundle : Bundle) (raw : List ℕ)
    → world.sign_transaction (build_bundle_tx world t bundle nonce) t.chain_spec.id ≡ ok raw
    → (e : SubmitError) × (world.submit raw ≡ err e)

-- The states in which no transaction is tracked.
abbrev Untracked : BundleSenderState → Type 0
Untracked pending = ⊥
Untracked escalating = ⊥
Untracked cancelling = ⊥
Untracked other = Unit

module _ (env : Hasher) (world : World) (t : BundlerTask)
    (refuses : RefusesNonce (next_nonce t.tracker) world) where
  abbrev Kept : BundlerTask × BundleSenderState → Type 0
  Kept r = (r.0.tracker ≡ t.tracker) × Untracked r.1

  building_Kept : Kept (handle_building world t)
  unfolding handle_building
  building_Kept = ground arith

  confirming_Kept : Kept (handle_confirming world t)
  unfolding handle_confirming
  confirming_Kept = ground arith

  submitting_Kept : Kept (handle_submitting world t)
  unfolding handle_submitting
  submitting_Kept = elim (Option-cases t.current_bundle) [
    | inl absent ↦ rw (handle_submitting, absent) (refl, tt)
    | inr (bundle, present) ↦
        elim (Result-cases (
          world.sign_transaction (build_bundle_tx world t bundle (next_nonce t.tracker))
            t.chain_spec.id)) [
              | inr (e, unsigned) ↦ rw (handle_submitting, present, unsigned) (refl, tt)
              | inl (raw, signed) ↦
                  let (e, refused) = refuses t bundle raw signed in
                  rw (handle_submitting, present, signed, refused) (refl, tt)
            ]
  ]

  handle-Kept : (s : BundleSenderState) → Untracked s → Kept (handle env world t s)
  unfolding handle handle_idle handle_terminal
  handle-Kept idle u = ground arith
  handle-Kept building u = building_Kept
  handle-Kept submitting u = submitting_Kept
  handle-Kept pending u = absurd u
  handle-Kept escalating u = absurd u
  handle-Kept cancelling u = absurd u
  handle-Kept confirming u = confirming_Kept
  handle-Kept confirmed u = (refl, tt)
  handle-Kept abandoned u = (refl, tt)

run_kept :
    (env : Hasher) (tracker : TransactionTracker) (t : BundlerTask) (worlds : List World)
    → t.tracker ≡ tracker
    → Untracked t.state
    → All (RefusesNonce (next_nonce tracker)) worlds
    → (run env t worlds).tracker ≡ tracker
unfolding run step
run_kept env tracker t [] same u all = same
run_kept env tracker t (world ∷ worlds) same u all =
    let refuses = subst (λ x. RefusesNonce (next_nonce x) world) (sym same) all.0 in
    let (kept, u') = handle-Kept env world t refuses t.state u in
    run_kept env tracker (step env world t) worlds (kept ∙ same) u' all.1

-- A transaction that is given up can block the bundler for good: when an escalation cannot get its
-- fees, the transaction is no longer tracked, but its nonce stays the next one; and if from then on
-- no bundle with this nonce is taken, as when the transaction is mined after all, then after any
-- number of ticks nothing is tracked and the next nonce is still the same.
pub given_up_nonce :
    (env : Hasher) (t : BundlerTask) (p : PendingTransaction) (first : World) (worlds : List World)
    → t.state ≡ escalating
    → t.tracker.pending ≡ some p
    → p.nonce ≡ next_nonce t.tracker
    → escalated_fees first.get_base_fee first.get_priority_fee t.tracker ≡ none
    → All (RefusesNonce p.nonce) worlds
    → let t' = run env t (first ∷ worlds) in
      (t'.tracker.pending ≡ none) × (next_nonce t'.tracker ≡ p.nonce)
unfolding run step handle handle_escalating clear_pending next_nonce
given_up_nonce env t p first worlds at sent same no_fees all =
    let tracker = clear_pending t.tracker in
    let gave_up : handle env first t t.state ≡ (record t { tracker = tracker }, abandoned) =
      ap (handle env first t) at ∙ ground arith in
    let stays =
      run_kept env tracker (step env first t) worlds
        (ap (λ (r : BundlerTask × BundleSenderState). r.0.tracker) gave_up)
        (subst (λ (r : BundlerTask × BundleSenderState). Untracked r.1) (sym gave_up) tt)
        (subst (λ n. All (RefusesNonce n) worlds) same all) in
    (ap (λ (x : TransactionTracker). x.pending) stays, ap next_nonce stays ∙ sym same)
