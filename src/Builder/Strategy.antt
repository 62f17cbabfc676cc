-- ===== src/Builder/Strategy.antt =====
-- The submission strategies (crates/builder/src/sender.rs, crates/builder/src/strategy/).
pub mod Router
pub mod Failover
pub mod Conditional
use Prim.Native.String.{String}
use text.Mathlib.Text.{find?}
use bunzo.Prelude.{ℕ, Bool, ◌||◌, List, Option, none, some, is_some, if◌then◌else◌}
use bunzo.Prelude.Result.{Result, ok, err}

pub data CancelOutcome : Type 0 where
  cancelled already_mined : CancelOutcome
  failed : String → CancelOutcome

pub data SubmitError : Type 0 where
  retryable strategy_failed terminal : String → SubmitError

abbrev pub contains : String → String → Bool
contains msg text = is_some (find? msg text)

-- DirectSubmissionStrategy: `reply` is the node's answer to `send_raw_transaction`, its error as
-- text.
unfoldable pub submit_direct : Result String ℕ → Result SubmitError ℕ
submit_direct (ok hash) = ok hash
submit_direct (err msg) =
    if contains msg "nonce too low"
      || (contains msg "already known" || contains msg "replacement transaction underpriced")
    then err (retryable msg)
    else err (strategy_failed msg)

unfoldable pub cancel_direct :
    Option (List ℕ) → (List ℕ → Result String ℕ) → Result SubmitError CancelOutcome
cancel_direct none send = ok (failed "no cancel transaction provided")
cancel_direct (some raw_cancel_tx) send = elim (send raw_cancel_tx) [
  | ok _ ↦ ok cancelled
  | err msg ↦
      if contains msg "nonce too low" || contains msg "already known"
      then ok already_mined
      else err (strategy_failed msg)
]
