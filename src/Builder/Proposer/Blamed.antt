-- ===== src/Builder/Proposer/Blamed.antt =====
-- Why an operation is rejected (crates/builder/src/proposer.rs, `make_bundle`).
use bunzo.Prelude.{
  ℕ, zero, suc, ◌≡◌, refl, ap, sym, subst, ◌∙◌, inl, inr, List, [], ◌∷◌, ◌++◌, some, arith, All,
  All-append, get_elem?, Option-cases,
}
use bunzo.Prelude.Result.{Result, ok, Result-cases}
use bunzo.Types.Gas.{GasFees}
use bunzo.Pool.Entry.{PoolEntry}
use bunzo.Provider.Traits.{failed_op}
use bunzo.Builder.Proposer.{
  Answers, BundleProposer, Bundle, ProposerError, RejectedOp, done, bundle_of, finish, attempt_once,
  retry, propose, candidates, make_bundle, remove_at,
}
use bunzo.Builder.Proposer.Selection.{Outcome-cases}
use bunzo.Builder.Proposer.Simulated.{
  Answer, attempt_once-done, attempt_once-failed, finish-ok, retry-done,
}

-- A simulation named an operation with the hash as failed, for the reason.
abbrev pub Blamed : Answers → BundleProposer → RejectedOp → Type 0
Blamed env b rejected =
    (fees : GasFees) × (attempt : ℕ) × (ops : List PoolEntry) × (idx : ℕ) × (entry : PoolEntry)
    × Answer env b fees attempt ops (failed_op idx rejected.reason)
    × (get_elem? ops idx ≡ some entry)
    × (entry.hash ≡ rejected.hash)

abbrev AllBlamed : Answers → BundleProposer → List RejectedOp → Type 0
AllBlamed env b rejected = All (Blamed env b) rejected

module _ (env : Answers) (b : BundleProposer) (fees : GasFees) where
  bundle_of-Blamed :
      (ops : List PoolEntry) (rejected : List RejectedOp) (bundle : Bundle)
      → bundle ≡ bundle_of b fees ops rejected
      → AllBlamed env b rejected
      → AllBlamed env b bundle.rejected_ops
  unfolding bundle_of
  bundle_of-Blamed ops rejected bundle e h =
      subst (AllBlamed env b) (sym (ap (λ (x : Bundle). x.rejected_ops) e)) h

  given_up :
      (ops : List PoolEntry) (rejected : List RejectedOp) (bundle : Bundle)
      → finish b fees ops rejected ≡ ok bundle
      → AllBlamed env b rejected
      → AllBlamed env b bundle.rejected_ops
  given_up ops rejected bundle e =
      bundle_of-Blamed ops rejected bundle (finish-ok env b fees ops rejected bundle e)

  accepted :
      (left attempt : ℕ) (ops : List PoolEntry) (rejected : List RejectedOp) (bundle : Bundle)
      → (r : Result ProposerError Bundle) → attempt_once env b fees attempt ops rejected ≡ done r
      → retry env b fees left attempt ops rejected ≡ ok bundle
      → AllBlamed env b rejected
      → AllBlamed env b bundle.rejected_ops
  accepted left attempt ops rejected bundle r p e =
      let returned : r ≡ ok bundle =
        sym (retry-done env b fees left attempt ops rejected r p) ∙ e in
      bundle_of-Blamed ops rejected bundle
        (attempt_once-done env b fees attempt ops rejected bundle (p ∙ ap done returned)).1

  retry-Blamed :
      (left attempt : ℕ) (ops : List PoolEntry) (rejected : List RejectedOp) (bundle : Bundle)
      → retry env b fees left attempt ops rejected ≡ ok bundle
      → AllBlamed env b rejected
      → AllBlamed env b bundle.rejected_ops
  unfolding retry
  retry-Blamed zero attempt ops rejected bundle e h =
      elim (Outcome-cases (attempt_once env b fees attempt ops rejected)) [
        | inl (r, p) ↦ accepted 0 attempt ops rejected bundle r p e h
        | inr (idx, reason, p) ↦ given_up ops rejected bundle (ground arith) h
      ]
  retry-Blamed (suc left) attempt ops rejected bundle e h =
      elim (Outcome-cases (attempt_once env b fees attempt ops rejected)) [
        | inl (r, p) ↦ accepted (suc left) attempt ops rejected bundle r p e h
        | inr (idx, reason, p) ↦ elim (Option-cases (get_elem? ops idx)) [
          | inl absent ↦ given_up ops rejected bundle (ground arith) h
          | inr (removed, present) ↦
              let blamed = attempt_once-failed env b fees attempt ops rejected idx reason p in
              retry-Blamed left (suc attempt) (remove_at idx ops)
                (rejected ++ record { hash = removed.hash; reason = reason } ∷ []) bundle
                (ground arith)
                (All-append (Blamed env b) rejected _ h
                  ((fees, attempt, ops, idx, removed, blamed, present, refl), tt))
        ]
      ]

  propose-Blamed :
      (ops : List PoolEntry) (bundle : Bundle)
      → propose env b fees ops ≡ ok bundle
      → AllBlamed env b bundle.rejected_ops
  unfolding propose
  propose-Blamed [] bundle e = absurd (ground arith)
  propose-Blamed (op ∷ ops) bundle e = retry-Blamed b.max_retries 0 (op ∷ ops) [] bundle e tt

-- Each rejected operation of a bundle was blamed by a simulation.
pub make_bundle-Blamed :
    (env : Answers) (b : BundleProposer) (bundle : Bundle)
    → make_bundle env b ≡ ok bundle
    → All (Blamed env b) bundle.rejected_ops
unfolding make_bundle
make_bundle-Blamed env b bundle e = elim (Result-cases env.current_fees) [
  | inr (x, failed) ↦ absurd (ground arith)
  | inl (fees, told) ↦ elim (Result-cases env.base_fee) [
    | inr (x, failed) ↦ absurd (ground arith)
    | inl (base_fee, known) ↦
        propose-Blamed env b fees (candidates b base_fee) bundle (ground arith)
  ]
]
