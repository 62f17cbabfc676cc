-- ===== src/Builder/Strategy/Failover.antt =====
-- Failover in the router (crates/builder/src/strategy/router.rs, `submit`).
use Prim.Native.String.{String}
use bunzo.Prelude.{
  ℕ, zero, suc, ◌+◌, ◌%◌, ◌<◌, ◌≡◌, refl, ◌≢◌, List, [], ◌∷◌, some, arith, ltb, length, get_elem?,
  if◌then◌else◌, dec_lt, subst,
}
use bunzo.Prelude.Result.{Result, ok, err}
use bunzo.Builder.Strategy.{SubmitError, retryable, strategy_failed, terminal}
use bunzo.Builder.Strategy.Router.{Strategy, StrategyRouter, submit_from, submit}

get_elem?_in_range {ℓ} :
    {A : Type ℓ} (xs : List A) (i : ℕ) → i < length xs → (x : A) × (get_elem? xs i ≡ some x)
get_elem?_in_range [] i h = absurd (omega arith)
get_elem?_in_range (x ∷ xs) zero h = (x, refl)
get_elem?_in_range (x ∷ xs) (suc i) h = get_elem?_in_range xs i (omega arith)

-- What the strategy at an offset from the primary answers.
abbrev pub Answers : StrategyRouter → List ℕ → ℕ → Result SubmitError ℕ → Type 0
Answers r raw_tx offset answer =
    (s : Strategy) × (get_elem? r.strategies ((r.primary + offset) % length r.strategies) ≡ some s)
    × (s.submit raw_tx ≡ answer)

-- The strategy at an offset has failed in the way that leads on to the next one.
abbrev pub Fails : StrategyRouter → List ℕ → ℕ → Type 0
Fails r raw_tx offset = (msg : String) × Answers r raw_tx offset (err (strategy_failed msg))

-- How the loop can end: with the first strategy that does not fail over, after failures of all
-- those before it, or with failures of all.
pub data Ends (r : StrategyRouter) (raw_tx : List ℕ) (stop : ℕ)
    : StrategyRouter × Result SubmitError ℕ → Type 0 where
  accepted :
      (offset hash : ℕ) (r' : StrategyRouter)
      → offset < stop
      → ((j : ℕ) → j < offset → Fails r raw_tx j)
      → Answers r raw_tx offset (ok hash)
      → r'.strategies ≡ r.strategies
      → r'.primary
        ≡ (if ltb 0 offset then (r.primary + offset) % length r.strategies else r.primary)
      → Ends r raw_tx stop (r', ok hash)
  stopped :
      (offset : ℕ) (e : SubmitError)
      → offset < stop
      → ((j : ℕ) → j < offset → Fails r raw_tx j)
      → ((msg : String) → e ≢ strategy_failed msg)
      → Answers r raw_tx offset (err e)
      → Ends r raw_tx stop (r, err e)
  exhausted :
      ((j : ℕ) → j < stop → Fails r raw_tx j)
      → Ends r raw_tx stop (r, err (strategy_failed "all strategies exhausted"))

FailsBefore : StrategyRouter → List ℕ → ℕ → Type 0
FailsBefore r raw_tx stop = (j : ℕ) → j < stop → Fails r raw_tx j

one_more :
    (r : StrategyRouter) (raw_tx : List ℕ) (offset : ℕ)
    → FailsBefore r raw_tx offset
    → Fails r raw_tx offset
    → FailsBefore r raw_tx (suc offset)
unfolding FailsBefore
one_more r raw_tx offset prior now j h = elim (dec_lt j offset) [
  | yes before ↦ prior j before
  | no here ↦ let e : offset ≡ j = omega arith in subst (Fails r raw_tx) e now
]

-- The loop from an offset on, in a run that ends in one of the three ways.
abbrev Run : StrategyRouter → List ℕ → (count offset : ℕ) → Type 0
Run r raw_tx count offset =
    (out : StrategyRouter × Result SubmitError ℕ) × (submit_from r raw_tx count offset ≡ some out)
    × Ends r raw_tx (length r.strategies) out

module _ (r : StrategyRouter) (raw_tx : List ℕ) where
  one_round :
      (count offset : ℕ) (s : Strategy) (answer : Result SubmitError ℕ)
      → offset + suc count ≡ length r.strategies
      → get_elem? r.strategies ((r.primary + offset) % length r.strategies) ≡ some s
      → s.submit raw_tx ≡ answer
      → FailsBefore r raw_tx offset
      → (FailsBefore r raw_tx (suc offset) → Run r raw_tx count (suc offset))
      → Run r raw_tx (suc count) offset
  unfolding submit_from FailsBefore
  one_round count offset s (ok hash) n found e prior next = (
    (
      if ltb 0 offset then record r { primary = (r.primary + offset) % length r.strategies } else r,
      ok hash,
    ),
    rw (found, e, submit_from),
    accepted offset hash _ (omega arith) prior (s, found, e) (ground arith) (ground arith),
  )
  one_round count offset s (err (retryable msg)) n found e prior next = (
    (r, err (retryable msg)),
    ground arith,
    stopped offset (retryable msg) (omega arith) prior (λ m h. cc) (s, found, e),
  )
  one_round count offset s (err (terminal msg)) n found e prior next = (
    (r, err (terminal msg)),
    ground arith,
    stopped offset (terminal msg) (omega arith) prior (λ m h. cc) (s, found, e),
  )
  one_round count offset s (err (strategy_failed msg)) n found e prior next =
      let (out, same, ends) = next (one_more r raw_tx offset prior (msg, (s, found, e))) in
      (out, ground arith, ends)

  loop_Ends :
      (count offset : ℕ)
      → offset + count ≡ length r.strategies
      → FailsBefore r raw_tx offset
      → Run r raw_tx count offset
  unfolding submit_from FailsBefore
  loop_Ends zero offset n prior = (
    (r, err (strategy_failed "all strategies exhausted")),
    refl,
    exhausted (λ j h. prior j (omega arith)),
  )
  loop_Ends (suc count) offset n prior =
      let (s, found) =
        get_elem?_in_range r.strategies ((r.primary + offset) % length r.strategies)
          (omega arith) in
      one_round count offset s (s.submit raw_tx) n found refl prior
        (loop_Ends count (suc offset) (omega arith))

  -- `submit` always ends, without an index out of range, in one of three ways. It accepts: it
  -- returns the hash of the first strategy, counted cyclically from the primary one, that takes
  -- the transaction, all before it having failed over, and if this is not the primary strategy
  -- itself it becomes the primary one. Or it stops: it returns the retryable or terminal error of
  -- the first strategy that does not fail over, and changes nothing. Or it is exhausted: it
  -- changes nothing, and every strategy has failed over.
  pub submit_Ends :
      (out : StrategyRouter × Result SubmitError ℕ) × (submit r raw_tx ≡ some out)
      × Ends r raw_tx (length r.strategies) out
  unfolding submit FailsBefore
  submit_Ends = loop_Ends (length r.strategies) 0 (omega arith) (λ j h. absurd (omega arith))
