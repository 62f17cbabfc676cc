-- ===== src/Builder/Strategy/Conditional.antt =====
-- crates/builder/src/strategy/conditional.rs: the strategy whose `submit` and `cancel` are not
-- written yet (`todo!()`, a panic: `none`), and its unused helper. `reply` is the node's answer.
use Prim.Native.String.{String, ◌++◌}
use bunzo.Prelude.{ℕ, Bool, false, ◌||◌, List, Option, none, if◌then◌else◌}
use bunzo.Prelude.Result.{Result, ok, err}
use bunzo.Builder.Strategy.{SubmitError, CancelOutcome, retryable, strategy_failed, contains}

pub record ConditionalSubmissionStrategy : Type 0 where
  pub max_slots : ℕ

abbrev pub new : ConditionalSubmissionStrategy
new = record { max_slots = 1000 }

unfoldable pub with_max_slots : ConditionalSubmissionStrategy → ℕ → ConditionalSubmissionStrategy
with_max_slots s max_slots = record s { max_slots = max_slots }

unfoldable pub submit : ConditionalSubmissionStrategy → List ℕ → Option (Result SubmitError ℕ)
submit s raw_tx = none

unfoldable pub cancel :
    ConditionalSubmissionStrategy → ℕ → Option (List ℕ) → Option (Result SubmitError CancelOutcome)
cancel s tx_hash cancel_tx = none

unfoldable pub supports_soft_cancel : ConditionalSubmissionStrategy → Bool
supports_soft_cancel s = false

unfoldable pub submit_direct : Result String ℕ → Result SubmitError ℕ
submit_direct (ok hash) = ok hash
submit_direct (err msg) =
    if contains msg "nonce too low"
      || (contains msg "already known" || contains msg "replacement transaction underpriced")
    then err (retryable msg)
    else if contains msg "conditional"
    then err (retryable ("conditional check failed: " ++ msg))
    else err (strategy_failed msg)
