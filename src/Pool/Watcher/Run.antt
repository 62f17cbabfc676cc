-- ===== src/Pool/Watcher/Run.antt =====
-- The watcher from its start (crates/pool/src/chain.rs, `new` and `run`). Its timer is the list of
-- what the node answers at each tick; the errors of a poll are only logged.
use bunzo.Prelude.{ℕ, ◌-◌, ◌<◌, ◌≡◌, ap, ◌∙◌, ◌⊎◌, inl, inr, List, [], ◌∷◌, arith}
use mathlib.Core.List.{append-nil}
use bunzo.Prelude.Result.{Result, ok, err}
use bunzo.Types.Chain.{ChainSpec}
use bunzo.Provider.Traits.{ProviderError}
use bunzo.Pool.Store.{OperationPool}
use bunzo.Pool.Reputation.{Float, ReputationManager}
use bunzo.Pool.Watcher.{Node, ChainWatcher, poll}
use bunzo.Pool.Watcher.Poll.{announced, descending, announced-poll}

module _ (fl : Float) where
  unfoldable pub new :
      OperationPool → ReputationManager fl → ChainSpec → (base_fee : ℕ) → ChainWatcher fl
  new pool reputation chain_spec base_fee = record {
    pool = pool;
    reputation = reputation;
    chain_spec = chain_spec;
    base_fee = base_fee;
    block_history = [];
    last_block = 0;
    events = [];
  }

  -- What `run` does before its loop.
  unfoldable pub initialize : Result ProviderError ℕ → ChainWatcher fl → ChainWatcher fl
  initialize (ok num) w = record w { last_block = num }
  initialize (err e) w = w

  unfoldable pub polls : ChainWatcher fl → List Node → ChainWatcher fl
  polls w [] = w
  polls w (node ∷ nodes) = polls (poll fl node w).0 nodes

  unfoldable pub run : Result ProviderError ℕ → ChainWatcher fl → List Node → ChainWatcher fl
  unfolding initialize polls
  run get_block_number w nodes = polls (initialize get_block_number w) nodes

  -- A new watcher whose first question for the newest block fails starts at block 0: its first
  -- poll announces, and so processes, blocks from 1 on, all up to the newest one if it succeeds.
  pub run_unsynchronized :
      (pool : OperationPool) (reputation : ReputationManager fl) (chain_spec : ChainSpec)
      → (base_fee current : ℕ) (e : ProviderError) (node : Node)
      → node.get_block_number ≡ ok current
      → let w = new pool reputation chain_spec base_fee in
        let events = (run (err e) w (node ∷ [])).events in
        (((poll fl node w).1 ≡ ok tt) × (announced events ≡ descending current 1))
        ⊎ ((k : ℕ) × (k < current) × (announced events ≡ descending k 1))
  unfolding run new
  run_unsynchronized pool reputation chain_spec base_fee current e node asked =
      elim (announced-poll fl node (new pool reputation chain_spec base_fee) current asked) [
        | inl (fine, last, all) ↦
            let from_one : current - 0 ≡ current = omega arith in
            inl (
              fine,
              all ∙ append-nil (descending (current - 0) 1) ∙ ap (λ n. descending n 1) from_one,
            )
        | inr (e, k, f, less, some_of) ↦
            inr (k, omega (arith, less), some_of ∙ append-nil (descending k 1))
      ]
