-- ===== src/Builder/Strategy/Router.antt =====
-- The router over several strategies (crates/builder/src/strategy/router.rs). A strategy is what it
-- answers; an index out of range, at which the code panics, is `none`.
use bunzo.Prelude.{
  ℕ, zero, suc, ◌+◌, ◌%◌, Bool, List, Option, none, some, ltb, if◌then◌else◌, length, get_elem?,
}
use bunzo.Prelude.Result.{Result, ok, err}
use bunzo.Builder.Strategy.{SubmitError, CancelOutcome, retryable, strategy_failed, terminal}

pub record Strategy : Type 0 where
  pub submit : List ℕ → Result SubmitError ℕ
  pub cancel : ℕ → Option (List ℕ) → Result SubmitError CancelOutcome
  pub supports_soft_cancel : Bool

pub record StrategyRouter : Type 0 where
  pub strategies : List Strategy
  pub primary : ℕ

unfoldable pub new : List Strategy → StrategyRouter
new strategies = record { strategies = strategies; primary = 0 }

unfoldable pub reset_primary : StrategyRouter → StrategyRouter
reset_primary r = record r { primary = 0 }

-- The loop of `submit` with `count` offsets left, from `offset` on.
unfoldable pub submit_from :
    StrategyRouter → List ℕ → (count offset : ℕ) → Option (StrategyRouter × Result SubmitError ℕ)
submit_from r raw_tx zero offset = some (r, err (strategy_failed "all strategies exhausted"))
submit_from r raw_tx (suc count) offset =
    let idx = (r.primary + offset) % length r.strategies in
    let rest = submit_from r raw_tx count (suc offset) in
    elim (get_elem? r.strategies idx) [
      | none ↦ none
      | some strat ↦ elim (strat.submit raw_tx) [
        | ok hash ↦ some ((if ltb 0 offset then record r { primary = idx } else r), ok hash)
        | err (retryable msg) ↦ some (r, err (retryable msg))
        | err (terminal msg) ↦ some (r, err (terminal msg))
        | err (strategy_failed msg) ↦ rest
      ]
    ]

unfoldable pub submit : StrategyRouter → List ℕ → Option (StrategyRouter × Result SubmitError ℕ)
submit r raw_tx = submit_from r raw_tx (length r.strategies) 0

unfoldable pub cancel :
    StrategyRouter → ℕ → Option (List ℕ) → Option (Result SubmitError CancelOutcome)
cancel r tx_hash cancel_tx = elim (get_elem? r.strategies r.primary) [
  | none ↦ none
  | some strat ↦ some (strat.cancel tx_hash cancel_tx)
]

unfoldable pub supports_soft_cancel : StrategyRouter → Option Bool
supports_soft_cancel r = elim (get_elem? r.strategies r.primary) [
  | none ↦ none
  | some strat ↦ some strat.supports_soft_cancel
]
