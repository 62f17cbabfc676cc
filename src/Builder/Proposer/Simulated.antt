-- ===== src/Builder/Proposer/Simulated.antt =====
-- What the last simulation said of a bundle (crates/builder/src/proposer.rs, `make_bundle`).
use Prim.Native.String.{String}
use bunzo.Prelude.{
  ℕ, zero, suc, ◌+◌, ◌/◌, ◌≤◌, ◌≡◌, refl, ap, sym, subst, ◌∙◌, ◌⊎◌, inl, inr, List, [], ◌∷◌, ◌++◌,
  none, arith, get_elem?, Option-cases,
}
use bunzo.Prelude.Words.{add_u64}
use bunzo.Prelude.Result.{Result, ok, Result-cases}
use bunzo.Types.Gas.{GasFees}
use bunzo.Pool.Entry.{PoolEntry}
use bunzo.Provider.Traits.{HandleOpsOut, success, failed_op}
use bunzo.Builder.Proposer.{
  Answers, BundleProposer, Bundle, ProposerError, RejectedOp, done, failed, packed, bundle_of,
  finish, attempt_once, retry, propose, candidates, make_bundle, remove_at, estimate_bundle_gas,
}
use bunzo.Builder.Proposer.Selection.{Outcome-cases}

-- The simulation asked of these operations, with the gas that was estimated for them.
abbrev pub Answer : Answers → BundleProposer → GasFees → ℕ → List PoolEntry → HandleOpsOut → Type 0
Answer env b fees attempt ops out =
    env.call_handle_ops attempt (packed ops) b.beneficiary (estimate_bundle_gas b.chain_spec ops)
      fees
    ≡ ok out

-- The operations of the bundle are those of the last simulation. It accepted them, or it named one
-- that could not be dropped: no attempt was left, or there is no operation at its index.
abbrev pub Simulated : Answers → BundleProposer → GasFees → (last : ℕ) → Bundle → Type 0
Simulated env b fees last bundle =
    (attempt : ℕ) × (ops : List PoolEntry) × (attempt ≤ last)
    × (bundle.ops ≡ packed ops)
    × (bundle.beneficiary ≡ b.beneficiary)
    × (bundle.gas_fees ≡ fees)
    × (bundle.gas_estimate
        ≡ add_u64 (estimate_bundle_gas b.chain_spec ops)
            (estimate_bundle_gas b.chain_spec ops / 20))
    × (Answer env b fees attempt ops success
        ⊎ ((idx : ℕ) × (reason : String) × Answer env b fees attempt ops (failed_op idx reason)
            × ((attempt ≡ last) ⊎ (get_elem? ops idx ≡ none))))

module _ (env : Answers) (b : BundleProposer) (fees : GasFees) where
  -- One attempt that ends with a bundle, or that names an operation.
  pub attempt_once-done :
      (attempt : ℕ) (ops : List PoolEntry) (rejected : List RejectedOp) (bundle : Bundle)
      → attempt_once env b fees attempt ops rejected ≡ done (ok bundle)
      → Answer env b fees attempt ops success × (bundle ≡ bundle_of b fees ops rejected)
  unfolding attempt_once
  attempt_once-done attempt [] rejected bundle e = ground arith
  attempt_once-done attempt (op ∷ ops) rejected bundle e = ground arith

  pub attempt_once-failed :
      (attempt : ℕ) (ops : List PoolEntry) (rejected : List RejectedOp) (idx : ℕ) (reason : String)
      → attempt_once env b fees attempt ops rejected ≡ failed idx reason
      → Answer env b fees attempt ops (failed_op idx reason)
  unfolding attempt_once
  attempt_once-failed attempt [] rejected idx reason e = ground arith
  attempt_once-failed attempt (op ∷ ops) rejected idx reason e = ground arith

  bundle_of-Simulated :
      (last attempt : ℕ) (ops : List PoolEntry) (rejected : List RejectedOp) (bundle : Bundle)
      → attempt ≤ last
      → bundle ≡ bundle_of b fees ops rejected
      → Answer env b fees attempt ops success
        ⊎ ((idx : ℕ) × (reason : String) × Answer env b fees attempt ops (failed_op idx reason)
            × ((attempt ≡ last) ⊎ (get_elem? ops idx ≡ none)))
      → Simulated env b fees last bundle
  unfolding bundle_of
  bundle_of-Simulated last attempt ops rejected bundle le e answered = (
    attempt,
    ops,
    le,
    ap (λ (x : Bundle). x.ops) e,
    ap (λ (x : Bundle). x.beneficiary) e,
    ap (λ (x : Bundle). x.gas_fees) e,
    ap (λ (x : Bundle). x.gas_estimate) e,
    answered,
  )

  pub finish-ok :
      (ops : List PoolEntry) (rejected : List RejectedOp) (bundle : Bundle)
      → finish b fees ops rejected ≡ ok bundle
      → bundle ≡ bundle_of b fees ops rejected
  unfolding finish
  finish-ok [] rejected bundle e = cc
  finish-ok (op ∷ ops) rejected bundle e = cc

  pub retry-done :
      (left attempt : ℕ) (ops : List PoolEntry) (rejected : List RejectedOp)
      → (r : Result ProposerError Bundle) → attempt_once env b fees attempt ops rejected ≡ done r
      → retry env b fees left attempt ops rejected ≡ r
  unfolding retry
  retry-done zero attempt ops rejected r p = rw (retry, p) refl
  retry-done (suc left) attempt ops rejected r p = rw (retry, p) refl

  -- A bundle that the loop gives up on.
  given_up :
      (last attempt : ℕ) (ops : List PoolEntry) (rejected : List RejectedOp) (bundle : Bundle)
      → (idx : ℕ) (reason : String) → attempt ≤ last
      → attempt_once env b fees attempt ops rejected ≡ failed idx reason
      → finish b fees ops rejected ≡ ok bundle
      → (attempt ≡ last) ⊎ (get_elem? ops idx ≡ none)
      → Simulated env b fees last bundle
  given_up last attempt ops rejected bundle idx reason le p e why =
      bundle_of-Simulated last attempt ops rejected bundle le (finish-ok ops rejected bundle e)
        (inr (idx, reason, attempt_once-failed attempt ops rejected idx reason p, why))

  accepted :
      (left attempt : ℕ) (ops : List PoolEntry) (rejected : List RejectedOp) (bundle : Bundle)
      → (r : Result ProposerError Bundle) → attempt_once env b fees attempt ops rejected ≡ done r
      → retry env b fees left attempt ops rejected ≡ ok bundle
      → Simulated env b fees (attempt + left) bundle
  accepted left attempt ops rejected bundle r p e =
      let returned : r ≡ ok bundle = sym (retry-done left attempt ops rejected r p) ∙ e in
      let last = attempt_once-done attempt ops rejected bundle (p ∙ ap done returned) in
      bundle_of-Simulated (attempt + left) attempt ops rejected bundle (omega arith) last.1
        (inl last.0)

  retry-Simulated :
      (left attempt : ℕ) (ops : List PoolEntry) (rejected : List RejectedOp) (bundle : Bundle)
      → retry env b fees left attempt ops rejected ≡ ok bundle
      → Simulated env b fees (attempt + left) bundle
  unfolding retry
  retry-Simulated zero attempt ops rejected bundle e =
      elim (Outcome-cases (attempt_once env b fees attempt ops rejected)) [
        | inl (r, p) ↦ accepted 0 attempt ops rejected bundle r p e
        | inr (idx, reason, p) ↦
            given_up (attempt + 0) attempt ops rejected bundle idx reason (omega arith) p
              (ground arith) (inl (omega arith))
      ]
  retry-Simulated (suc left) attempt ops rejected bundle e =
      elim (Outcome-cases (attempt_once env b fees attempt ops rejected)) [
        | inl (r, p) ↦ accepted (suc left) attempt ops rejected bundle r p e
        | inr (idx, reason, p) ↦ elim (Option-cases (get_elem? ops idx)) [
          | inl absent ↦
              given_up (attempt + suc left) attempt ops rejected bundle idx reason (omega arith) p
                (ground arith) (inr absent)
          | inr (removed, present) ↦
              let rest : Simulated env b fees (suc attempt + left) bundle =
                retry-Simulated left (suc attempt) (remove_at idx ops)
                  (rejected ++ record { hash = removed.hash; reason = reason } ∷ []) bundle
                  (ground arith) in
              subst (λ n. Simulated env b fees n bundle) (omega arith) rest
        ]
      ]

propose-Simulated :
    (env : Answers) (b : BundleProposer) (fees : GasFees) (start : List PoolEntry) (bundle : Bundle)
    → propose env b fees start ≡ ok bundle
    → Simulated env b fees b.max_retries bundle
unfolding propose
propose-Simulated env b fees [] bundle e = cc
propose-Simulated env b fees (op ∷ ops) bundle e =
    subst (λ n. Simulated env b fees n bundle) (omega arith)
      (retry-Simulated env b fees b.max_retries 0 (op ∷ ops) [] bundle e)

-- A bundle that `make_bundle` returns consists of the operations of its last simulation, which was
-- asked with the beneficiary and the fees of the bundle and the gas estimated for them; the bundle
-- allows 5% more gas.
-- That simulation accepted them, or it named an operation as failed that could not be dropped: the
-- retries were used up, or there is no operation at the index that it named.
pub make_bundle-Simulated :
    (env : Answers) (b : BundleProposer) (bundle : Bundle)
    → make_bundle env b ≡ ok bundle
    → (fees : GasFees) × (env.current_fees ≡ ok fees) × Simulated env b fees b.max_retries bundle
unfolding make_bundle
make_bundle-Simulated env b bundle e = elim (Result-cases env.current_fees) [
  | inr (bad, f) ↦ absurd (ground arith)
  | inl (fees, f) ↦ elim (Result-cases env.base_fee) [
    | inr (bad, p) ↦ absurd (ground arith)
    | inl (base_fee, p) ↦
        (fees, f, propose-Simulated env b fees (candidates b base_fee) bundle (ground arith))
  ]
]
