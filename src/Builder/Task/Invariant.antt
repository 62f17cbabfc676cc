-- ===== src/Builder/Task/Invariant.antt =====
-- What holds in each state of the bundler (crates/builder/src/task.rs, `step`).
use bunzo.Prelude.{ℕ, ◌≡◌, subst, ◌≢◌, false, List, [], ◌∷◌, Option, none, some, arith}
use bunzo.Prelude.Result.{Result, ok, err}
use bunzo.Types.Chain.{ChainSpec}
use bunzo.Types.UserOperation.Packing.{Hasher}
use bunzo.Pool.Store.{OperationPool}
use bunzo.Provider.Traits.{ProviderError}
use bunzo.Builder.Tracker.{
  TransactionTracker, PendingTransaction, TransactionStatus, check_pending, clear_pending,
  record_submission, record_escalation, escalated_fees, next_nonce, mined, dropped, pending_status,
  initialize,
}
use bunzo.Builder.Tracker
use bunzo.Builder.Proposer.{Bundle, BundleProposer, is_empty}
use bunzo.Builder.Task.State.{
  BundlerTask, World, BundleSenderState, idle, building, submitting, pending, escalating,
  cancelling, confirming, confirmed, abandoned, new,
}
use bunzo.Builder.Task.{
  start, handle, handle_idle, handle_building, handle_submitting, handle_pending, handle_escalating,
  handle_confirming, handle_terminal, remove_bundled_ops, step, run,
}

-- The pending transaction was sent with the next nonce.
abbrev pub AtNextNonce : Option PendingTransaction → ℕ → Type 0
AtNextNonce none nonce = ⊥
AtNextNonce (some p) nonce = p.nonce ≡ nonce

-- There is a bundle, and it is not empty.
abbrev pub HasBundle : Option Bundle → Type 0
HasBundle none = ⊥
HasBundle (some bundle) = is_empty bundle ≡ false

abbrev pub HasBlock : Option ℕ → Type 0
HasBlock none = ⊥
HasBlock (some n) = Unit

-- The invariant of each state.
abbrev pub Holds : BundleSenderState → BundlerTask → Type 0
Holds idle t = t.tracker.pending ≡ none
Holds building t = t.tracker.pending ≡ none
Holds submitting t = (t.tracker.pending ≡ none) × HasBundle t.current_bundle
Holds pending t = AtNextNonce t.tracker.pending t.tracker.current_nonce × HasBundle t.current_bundle
Holds escalating t =
    AtNextNonce t.tracker.pending t.tracker.current_nonce × HasBundle t.current_bundle
Holds cancelling t = ⊥
Holds confirming t = (t.tracker.pending ≡ none) × HasBlock t.mined_block
Holds confirmed t = t.tracker.pending ≡ none
Holds abandoned t = t.tracker.pending ≡ none

module _ (env : Hasher) (world : World) (t : BundlerTask) where
  building_Holds : Holds building t → let (t', s) = handle_building world t in Holds s t'
  unfolding handle_building
  building_Holds h = ground arith

  submitting_Holds : Holds submitting t → let (t', s) = handle_submitting world t in Holds s t'
  unfolding handle_submitting record_submission next_nonce
  submitting_Holds h = ground arith

  pending_Holds : Holds pending t → let (t', s) = handle_pending env world t in Holds s t'
  unfolding handle_pending check_pending remove_bundled_ops
  pending_Holds h = ground arith

  escalating_Holds : Holds escalating t → let (t', s) = handle_escalating world t in Holds s t'
  unfolding handle_escalating record_escalation clear_pending
  escalating_Holds h = ground arith

  confirming_Holds : Holds confirming t → let (t', s) = handle_confirming world t in Holds s t'
  unfolding handle_confirming
  confirming_Holds h = ground arith

  handle-Holds :
      (s : BundleSenderState) → Holds s t → let (t', s') = handle env world t s in Holds s' t'
  unfolding handle handle_idle handle_terminal
  handle-Holds idle h = ground arith
  handle-Holds building h = building_Holds h
  handle-Holds submitting h = submitting_Holds h
  handle-Holds pending h = pending_Holds h
  handle-Holds escalating h = escalating_Holds h
  handle-Holds cancelling h = absurd h
  handle-Holds confirming h = confirming_Holds h
  handle-Holds confirmed h = h
  handle-Holds abandoned h = h

Holds-state :
    (s x : BundleSenderState) (t : BundlerTask) → Holds s t → Holds s (record t { state = x })
Holds-state idle x t h = h
Holds-state building x t h = h
Holds-state submitting x t h = h
Holds-state pending x t h = h
Holds-state escalating x t h = h
Holds-state cancelling x t h = h
Holds-state confirming x t h = h
Holds-state confirmed x t h = h
Holds-state abandoned x t h = h

-- The pool has no part in it.
pub Holds-pool :
    (s : BundleSenderState) (t : BundlerTask) (pool : OperationPool)
    → Holds s t
    → Holds s (record t { pool = pool })
Holds-pool idle t pool h = h
Holds-pool building t pool h = h
Holds-pool submitting t pool h = h
Holds-pool pending t pool h = h
Holds-pool escalating t pool h = h
Holds-pool cancelling t pool h = h
Holds-pool confirming t pool h = h
Holds-pool confirmed t pool h = h
Holds-pool abandoned t pool h = h

pub step-Holds :
    (env : Hasher) (world : World) (t : BundlerTask)
    → Holds t.state t
    → Holds (step env world t).state (step env world t)
unfolding step
step-Holds env world t h =
    let (t', s) = handle env world t t.state in
    Holds-state s s t' (handle-Holds env world t t.state h)

pub run-Holds :
    (env : Hasher) (t : BundlerTask) (worlds : List World)
    → Holds t.state t
    → Holds (run env t worlds).state (run env t worlds)
unfolding run
run-Holds env t [] h = h
run-Holds env t (world ∷ worlds) h =
    run-Holds env (step env world t) worlds (step-Holds env world t h)

pub start-Holds :
    (proposer : BundleProposer) (signer : ℕ) (pool : OperationPool) (c : ChainSpec)
    (get_nonce : Result ProviderError ℕ) (t : BundlerTask)
    → start get_nonce (new proposer signer pool c) ≡ some t
    → Holds t.state t
unfolding start new initialize Tracker.new
start-Holds proposer signer pool c (ok nonce) t e = ground arith
start-Holds proposer signer pool c (err x) t e = cc

-- A bundler that started and then made any steps, whatever the world answered: while it is pending
-- or escalating it tracks one transaction, sent with the next nonce, and has a non-empty bundle;
-- while it is submitting it has a non-empty bundle; while it is confirming it knows the block; in
-- every state but those two it tracks no transaction; and it is never in the state Cancelling.
pub started_Holds :
    (env : Hasher) (proposer : BundleProposer) (signer : ℕ) (pool : OperationPool) (c : ChainSpec)
    (get_nonce : Result ProviderError ℕ) (t : BundlerTask) (worlds : List World)
    → start get_nonce (new proposer signer pool c) ≡ some t
    → let t' = run env t worlds in Holds t'.state t' × (t'.state ≢ cancelling)
started_Holds env proposer signer pool c get_nonce t worlds e =
    let h = run-Holds env t worlds (start-Holds proposer signer pool c get_nonce t e) in
    (h, λ same. subst (λ s. Holds s (run env t worlds)) same h)
