-- ===== src/Builder/Proposer/Reported.antt =====
-- The proposer over the node: from the text of the node's error to the operation that is dropped
-- (crates/builder/src/proposer.rs with crates/provider/src/alloy/bundle_handler.rs).
use Prim.Native.String.{String}
use bunzo.Prelude.{
  ℕ, suc, ◌<◌, ◌≤◌, ◌≡◌, refl, sym, ◌∙◌, List, [], ◌∷◌, ◌++◌, none, some, arith, length, All,
  get_elem?,
}
use bunzo.Prelude.Words.{u64_mod}
use bunzo.Prelude.Result.{ok, err}
use bunzo.Types.Gas.{GasFees}
use bunzo.Types.UserOperation.Packing.{PackedUserOperation}
use bunzo.Pool.Entry.{PoolEntry}
use bunzo.Provider.Traits.{failed_op}
use bunzo.Provider.Contracts.{Abi}
use bunzo.Provider.Contracts
use bunzo.Provider.Revert.{HexDecoder, to_hex, find_0x}
use bunzo.Provider.Revert.Extract.{EndsDigits, extract_revert_data-append}
use bunzo.Provider.BundleHandler.{
  AlloyBundleHandler, call_handle_ops, build_handle_ops_tx, handle_ops_error, decode_handle_ops,
}
use bunzo.Builder.Proposer.{
  Answers, BundleProposer, RejectedOp, packed, estimate_bundle_gas, attempt_once, failed, retry,
  remove_at,
}

-- The bytes are an error of the entry point that blames one operation.
pub data Blames (abi : Abi) (bytes : List ℕ) (idx : ℕ) (reason : String) : Type 0 where
  plain :
      abi.decode_error bytes ≡ some (Contracts.failed_op idx reason) → Blames abi bytes idx reason
  with_revert :
      (inner : List ℕ)
      → abi.decode_error bytes ≡ some (Contracts.failed_op_with_revert idx reason inner)
      → Blames abi bytes idx reason

decode_handle_ops-Blames :
    (abi : Abi) (bytes : List ℕ) (idx : ℕ) (reason : String)
    → idx < u64_mod
    → Blames abi bytes idx reason
    → decode_handle_ops abi bytes ≡ some (failed_op idx reason)
unfolding decode_handle_ops
decode_handle_ops-Blames abi bytes idx reason fits (plain e) = ground arith
decode_handle_ops-Blames abi bytes idx reason fits (with_revert inner e) = ground arith

some_injective : {A : Type 0} {x y : A} → some x ≡ some y → x ≡ y
some_injective e = cc

retry-failed :
    (env : Answers) (b : BundleProposer) (fees : GasFees) (left attempt : ℕ) (ops : List PoolEntry)
    (rejected : List RejectedOp) (removed : PoolEntry) (idx : ℕ) (reason : String)
    → attempt_once env b fees attempt ops rejected ≡ failed idx reason
    → get_elem? ops idx ≡ some removed
    → retry env b fees (suc left) attempt ops rejected
      ≡ retry env b fees left
          (suc attempt)
          (remove_at idx ops)
          (rejected ++ record { hash = removed.hash; reason = reason } ∷ [])
unfolding retry
retry-failed env b fees left attempt ops rejected removed idx reason failing present = ground arith

module _ (abi : Abi) (hex : HexDecoder) (node : (attempt : ℕ) → AlloyBundleHandler) where
  -- The proposer's simulations are the handler's calls of the node, none of which panics.
  abbrev pub Backed : Answers → Type 0
  Backed env =
      (attempt : ℕ) (ops : List PackedUserOperation) (beneficiary gas_limit : ℕ) (fees : GasFees)
      → call_handle_ops abi hex (node attempt) ops beneficiary gas_limit fees
        ≡ some (env.call_handle_ops attempt ops beneficiary gas_limit fees)

  -- The call of one attempt.
  abbrev pub Refused : BundleProposer → GasFees → ℕ → List PoolEntry → List ℕ → Type 0
  Refused b fees attempt ops text =
      let h = node attempt in
      h.call (
        build_handle_ops_tx abi hex h (packed ops) b.beneficiary
          (estimate_bundle_gas b.chain_spec ops) fees)
      ≡ err text

  handle_ops_error-Blames :
      (attempt : ℕ) (before bytes after : List ℕ) (idx : ℕ) (reason : String)
      → find_0x before ≡ none
      → All (λ b. b < 256) bytes
      → 4 ≤ length bytes
      → EndsDigits after
      → idx < u64_mod
      → Blames abi bytes idx reason
      → handle_ops_error abi hex (node attempt) (before ++ (b'0' ∷ b'x' ∷ (to_hex bytes ++ after)))
        ≡ some (ok (failed_op idx reason))
  unfolding handle_ops_error
  handle_ops_error-Blames attempt before bytes after idx reason absent small long ends fits blames =
      let found = extract_revert_data-append hex before bytes after absent small long ends in
      let decoded = decode_handle_ops-Blames abi bytes idx reason fits blames in
      rw (handle_ops_error, found, decoded) refl

  -- When the node refuses the bundle of an attempt that is not the last one, and the text of its
  -- error reports, in hexadecimal after the first `0x` and with no further digit behind, at least
  -- four bytes that are an error of the entry point that blames the operation at an index of the
  -- attempt's operations, then the proposer goes on without that operation, and records it as
  -- rejected for the reason that the entry point gave. No call of the node is to panic, and the
  -- index is to fit a usize.
  pub retry-Blames :
      (env : Answers)
      → Backed env
      → (b : BundleProposer) (fees : GasFees) (left attempt : ℕ) (ops : List PoolEntry)
      → (rejected : List RejectedOp) (removed : PoolEntry)
      → (before bytes after : List ℕ) (idx : ℕ) (reason : String)
      → Refused b fees attempt ops (before ++ (b'0' ∷ b'x' ∷ (to_hex bytes ++ after)))
      → find_0x before ≡ none
      → All (λ b. b < 256) bytes
      → 4 ≤ length bytes
      → EndsDigits after
      → Blames abi bytes idx reason
      → idx < u64_mod
      → get_elem? ops idx ≡ some removed
      → retry env b fees (suc left) attempt ops rejected
        ≡ retry env b fees left
            (suc attempt)
            (remove_at idx ops)
            (rejected ++ record { hash = removed.hash; reason = reason } ∷ [])
  unfolding call_handle_ops attempt_once
  retry-Blames env backed b fees left attempt [] rejected removed before bytes after idx reason
        refused absent small long ends blames fits present =
      cc
  retry-Blames env backed b fees left attempt (op ∷ ops) rejected removed before bytes after idx
        reason refused absent small long ends blames fits present =
      let gas = estimate_bundle_gas b.chain_spec (op ∷ ops) in
      let handled : call_handle_ops abi hex (node attempt) (packed (op ∷ ops)) b.beneficiary gas
            fees
          ≡ some (ok (failed_op idx reason)) =
        rw (call_handle_ops, refused)
          (handle_ops_error-Blames attempt before bytes after idx reason absent small long ends fits
            blames) in
      let answered =
        some_injective
          (sym (backed attempt (packed (op ∷ ops)) b.beneficiary gas fees) ∙ handled) in
      retry-failed env b fees left attempt (op ∷ ops) rejected removed idx reason
        (rw (attempt_once, answered) refl) present
