-- ===== src/Provider/BundleHandler/Answered.antt =====
-- What a simulation of a bundle says of the node's answer
-- (crates/provider/src/alloy/bundle_handler.rs, `call_handle_ops`).
use Prim.Native.String.{String}
use bunzo.Prelude.{ℕ, ◌≡◌, inl, inr, List, some, arith}
use bunzo.Prelude.Result.{ok, err, Result-cases}
use bunzo.Types.Gas.{GasFees}
use bunzo.Types.UserOperation.Packing.{PackedUserOperation}
use bunzo.Provider.Traits.{success, failed_op}
use bunzo.Provider.Contracts.{Abi}
use bunzo.Provider.Revert.{HexDecoder}
use bunzo.Provider.BundleHandler.{
  AlloyBundleHandler, call_handle_ops, build_handle_ops_tx, handle_ops_error, decode_handle_ops,
}

module _ (abi : Abi) (hex : HexDecoder) (h : AlloyBundleHandler) where
  -- A text of an error is never taken for a success.
  handle_ops_error-success :
      (text : List ℕ) → handle_ops_error abi hex h text ≡ some (ok success) → ⊥
  unfolding handle_ops_error decode_handle_ops
  handle_ops_error-success text e = ground arith

  pub call_handle_ops-success :
      (ops : List PackedUserOperation) (beneficiary gas : ℕ) (fees : GasFees)
      → call_handle_ops abi hex h ops beneficiary gas fees ≡ some (ok success)
      → (out : List ℕ) × (h.call (build_handle_ops_tx abi hex h ops beneficiary gas fees) ≡ ok out)
  unfolding call_handle_ops
  call_handle_ops-success ops beneficiary gas fees e =
      elim (Result-cases (h.call (build_handle_ops_tx abi hex h ops beneficiary gas fees))) [
        | inl (out, answered) ↦ (out, answered)
        | inr (text, refused) ↦ absurd (handle_ops_error-success text (ground arith))
      ]

  pub call_handle_ops-failed :
      (ops : List PackedUserOperation) (beneficiary gas : ℕ) (fees : GasFees) (idx : ℕ)
      (reason : String)
      → call_handle_ops abi hex h ops beneficiary gas fees ≡ some (ok (failed_op idx reason))
      → (text : List ℕ) × (h.call (build_handle_ops_tx abi hex h ops beneficiary gas fees)
          ≡ err text)
        × (handle_ops_error abi hex h text ≡ some (ok (failed_op idx reason)))
  unfolding call_handle_ops
  call_handle_ops-failed ops beneficiary gas fees idx reason e =
      elim (Result-cases (h.call (build_handle_ops_tx abi hex h ops beneficiary gas fees))) [
        | inl (out, answered) ↦ absurd (ground arith)
        | inr (text, refused) ↦ (text, refused, ground arith)
      ]
