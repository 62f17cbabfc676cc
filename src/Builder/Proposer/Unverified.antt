-- ===== src/Builder/Proposer/Unverified.antt =====
-- A bundle that no simulation accepted (crates/builder/src/proposer.rs, the end of `make_bundle`).
use Prim.Native.String.{String}
use bunzo.Prelude.{ℕ, zero, suc, ◌<◌, ◌≡◌, refl, List, [], ◌∷◌, ◌++◌, arith, length, drop}
use bunzo.Prelude.Result.{ok}
use bunzo.Types.Gas.{GasFees}
use bunzo.Types.UserOperation.Packing.{PackedUserOperation}
use bunzo.Pool.Entry.{PoolEntry}
use bunzo.Provider.Traits.{failed_op}
use bunzo.Builder.Proposer.{
  Answers, BundleProposer, Bundle, RejectedOp, packed, bundle_of, finish, attempt_once, retry,
  propose, candidates, make_bundle, remove_at,
}

-- Every simulation says that the first operation fails.
abbrev pub AlwaysFails : Answers → String → Type 0
AlwaysFails env reason =
    (attempt : ℕ) (ops : List PackedUserOperation) (beneficiary total_gas : ℕ) (fees : GasFees)
    → env.call_handle_ops attempt ops beneficiary total_gas fees ≡ ok (failed_op 0 reason)

module _ (env : Answers) (b : BundleProposer) (reason : String) (bad : AlwaysFails env reason) where
  retry_unverified :
      (fees : GasFees) (left attempt : ℕ) (ops : List PoolEntry) (rejected : List RejectedOp)
      → left < length ops
      → (bundle : Bundle) × (retry env b fees left attempt ops rejected ≡ ok bundle)
        × (bundle.ops ≡ packed (drop left ops))
  unfolding retry attempt_once finish bundle_of remove_at
  retry_unverified fees left attempt [] rejected h = absurd (omega arith)
  retry_unverified fees zero attempt (op ∷ ops) rejected h =
      (bundle_of b fees (op ∷ ops) rejected, rw (bad, retry, attempt_once) refl, refl)
  retry_unverified fees (suc left) attempt (op ∷ ops) rejected h =
      rw (bad, retry, attempt_once)
        (retry_unverified fees left (suc attempt) ops
          (rejected ++ record { hash = op.hash; reason = reason } ∷ []) (omega arith))

  -- The proposer can return a bundle that the last simulation refused: if every simulation reports
  -- that the first operation fails, and there are more candidates than retries, `make_bundle`
  -- succeeds with the candidates that are left when the retries are used up, none of which any
  -- simulation accepted.
  pub make_bundle_unverified :
      (fees : GasFees) (base_fee : ℕ)
      → env.current_fees ≡ ok fees
      → env.base_fee ≡ ok base_fee
      → b.max_retries < length (candidates b base_fee)
      → (bundle : Bundle) × (make_bundle env b ≡ ok bundle)
        × (bundle.ops ≡ packed (drop b.max_retries (candidates b base_fee)))
  unfolding make_bundle propose
  make_bundle_unverified fees base_fee f p h = rw (f, p, make_bundle) (go (candidates b base_fee) h)
    where
      go :
          (start : List PoolEntry)
          → b.max_retries < length start
          → (bundle : Bundle) × (propose env b fees start ≡ ok bundle)
            × (bundle.ops ≡ packed (drop b.max_retries start))
      go [] h = absurd (omega arith)
      go (op ∷ ops) h = retry_unverified fees b.max_retries 0 (op ∷ ops) [] h
