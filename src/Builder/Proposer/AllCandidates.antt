-- ===== src/Builder/Proposer/AllCandidates.antt =====
-- A bundle that the first simulation accepts (crates/builder/src/proposer.rs, `make_bundle`).
use bunzo.Prelude.{
  ℕ, zero, suc, ◌≤◌, ◌≡◌, refl, true, List, [], ◌∷◌, length, In, keep-In, map-In, Bool,
}
use bunzo.Prelude.Result.{ok}
use bunzo.Types.Gas.{GasFees, covers}
use bunzo.Types.UserOperation.Packing.{PackedUserOperation, pack}
use bunzo.Types.UserOperation as Op
use bunzo.Pool.Entry.{PoolEntry}
use bunzo.Pool.Store.{best_operations}
use bunzo.Pool.Represents.{Represents}
use bunzo.Pool.Best.{best_operations_all}
use bunzo.Provider.Traits.{success}
use bunzo.Builder.Proposer.{
  Answers, BundleProposer, Bundle, bundle_of, attempt_once, retry, propose, candidates, make_bundle,
}

-- Every simulation succeeds.
abbrev pub AlwaysAccepts : Answers → Type 0
AlwaysAccepts env =
    (attempt : ℕ) (ops : List PackedUserOperation) (beneficiary total_gas : ℕ) (fees : GasFees)
    → env.call_handle_ops attempt ops beneficiary total_gas fees ≡ ok success

-- An operation of the pool that pays is a candidate, where the pool fits into a bundle.
candidates-In :
    (b : BundleProposer) (l : List PoolEntry) (base_fee : ℕ) (e : PoolEntry)
    → Represents b.pool l
    → length l ≤ b.chain_spec.max_bundle_size
    → covers (Op.gas_fees e.uo) base_fee b.chain_spec.min_max_priority_fee_per_gas ≡ true
    → In e l
    → In e (candidates b base_fee)
unfolding candidates
candidates-In b l base_fee e r few pays m =
    let best = best_operations b.pool b.chain_spec.max_bundle_size in
    let test : PoolEntry → Bool =
      λ x. covers (Op.gas_fees x.uo) base_fee b.chain_spec.min_max_priority_fee_per_gas in
    keep-In test best e (best_operations_all b.pool l b.chain_spec.max_bundle_size e r few m) pays

module _ (env : Answers) (b : BundleProposer) (accepts : AlwaysAccepts env) where
  retry_accepted :
      (fees : GasFees) (left : ℕ) (op : PoolEntry) (ops : List PoolEntry)
      → retry env b fees left 0 (op ∷ ops) [] ≡ ok (bundle_of b fees (op ∷ ops) [])
  unfolding retry attempt_once
  retry_accepted fees zero op ops = rw (retry, attempt_once, accepts) refl
  retry_accepted fees (suc left) op ops = rw (retry, attempt_once, accepts) refl

  -- The bundle holds the packed operation, and rejects none.
  pub make_bundle-In :
      (fees : GasFees) (base_fee : ℕ) (l : List PoolEntry) (e : PoolEntry)
      → env.current_fees ≡ ok fees
      → env.base_fee ≡ ok base_fee
      → Represents b.pool l
      → length l ≤ b.chain_spec.max_bundle_size
      → covers (Op.gas_fees e.uo) base_fee b.chain_spec.min_max_priority_fee_per_gas ≡ true
      → In e l
      → (bundle : Bundle) × (make_bundle env b ≡ ok bundle)
        × In (pack e.uo) bundle.ops
        × (bundle.rejected_ops ≡ [])
  unfolding make_bundle propose bundle_of
  make_bundle-In fees base_fee l e f p r few pays m =
      rw (f, p, make_bundle)
        (go (candidates b base_fee) (candidates-In b l base_fee e r few pays m))
    where
      go :
          (start : List PoolEntry)
          → In e start
          → (bundle : Bundle) × (propose env b fees start ≡ ok bundle)
            × In (pack e.uo) bundle.ops
            × (bundle.rejected_ops ≡ [])
      go [] m = absurd m
      go (op ∷ ops) m = (
        bundle_of b fees (op ∷ ops) [],
        retry_accepted fees b.max_retries op ops,
        map-In (λ x. pack x.uo) (op ∷ ops) e m,
        refl,
      )
