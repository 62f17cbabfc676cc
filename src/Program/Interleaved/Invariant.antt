-- ===== src/Program/Interleaved/Invariant.antt =====
-- What holds of the running program (bin/bunzo/src/main.rs) however its threads come between one
-- another.
use bunzo.Prelude.{ℕ, ◌≤◌, ◌≡◌, ap, ◌∙◌, sym, subst, List, [], ◌∷◌, Option, none, some, arith}
use bunzo.Prelude.Result.{ok}
use bunzo.Types.Chain.{ChainSpec}
use bunzo.Types.UserOperation.Packing.{Hasher}
use bunzo.Pool.Entry.{PoolConfig, of_chain_spec}
use bunzo.Pool.Store.{size}
use bunzo.Pool.Represents.{size-length}
use bunzo.Pool.Contains.{Contains}
use bunzo.Pool.Reputation.{Float}
use bunzo.Builder.Task.State.{BundlerTask, World}
use bunzo.Rpc.Eth
use bunzo.Rpc.Server
use bunzo.Program.{CliArgs, Environment, Program, main, chain_spec_of, new_server}
use bunzo.Program.Accepted.{Accepted}
use bunzo.Program.Invariant.{Runs}
use bunzo.Program.FromStart.{
  initial, initial-Invariant, main-initial, chain_spec_of_quota, chain_spec_of_args,
}
use bunzo.Program.Interleaved.{System, Event, submits, adds, moves, started, step, run}
use bunzo.Program.Interleaved.Steps.{RunsAt, worlds_after, Invariant, step-Invariant}

module _ (fl : Float) (env : Hasher) (c : ChainSpec) where
  pub run-Invariant :
      (seen : List World) (s : System fl) (events : List (Event fl))
      → Invariant fl env c seen s
      → Invariant fl env c (worlds_after events seen) (run fl env s events)
  unfolding run
  run-Invariant seen s [] v = v
  run-Invariant seen s (submits uo entry_point ∷ events) v =
      let event = submits uo entry_point in
      run-Invariant seen (step fl env s event) events (step-Invariant fl env c seen s event v)
  run-Invariant seen s (adds n ∷ events) v =
      run-Invariant seen (step fl env s (adds n)) events (step-Invariant fl env c seen s (adds n) v)
  run-Invariant seen s (moves world ∷ events) v =
      run-Invariant (world ∷ seen) (step fl env s (moves world)) events
        (step-Invariant fl env c seen s (moves world) v)

module _ (fl : Float) (env : Hasher) (outside : Environment) (cli : CliArgs) where
  initial-started :
      (chain_id : ℕ) (bundler : Option BundlerTask)
      → Runs bundler
      → let c = chain_spec_of cli chain_id in
        Invariant fl env c [] (started fl (initial fl env outside cli c bundler))
  unfolding started
  initial-started chain_id none runs =
      let v =
        initial-Invariant fl env outside cli (chain_spec_of cli chain_id) none
          (chain_spec_of_quota cli chain_id) runs in
      record { configured = v.configured; contents = v.contents; ready = tt; bundler_runs = tt }
  initial-started chain_id (some t) runs =
      let v =
        initial-Invariant fl env outside cli (chain_spec_of cli chain_id) (some t)
          (chain_spec_of_quota cli chain_id) runs in
      record { configured = v.configured; contents = v.contents; ready = tt; bundler_runs = runs }

  abbrev Starts : List (Event fl) → Program fl → Type 0
  Starts events s =
      (s.api.chain_spec.entry_point_v0_7 ≡ cli.entry_point)
      × (s.api.chain_spec.max_pool_size ≡ cli.max_pool_size)
      × Invariant fl env s.api.chain_spec (worlds_after events [])
          (run fl env (started fl s) events)

  -- The chain parameters that the program starts with, and the invariant for them after any events.
  pub main-Invariant :
      (s : Program fl) (events : List (Event fl))
      → main fl outside cli ≡ ok s
      → (s.api.chain_spec.entry_point_v0_7 ≡ cli.entry_point)
        × (s.api.chain_spec.max_pool_size ≡ cli.max_pool_size)
        × Invariant fl env s.api.chain_spec
            (worlds_after events [])
            (run fl env (started fl s) events)
  unfolding new_server Server.with_providers Eth.with_providers
  main-Invariant s events e =
      let (chain_id, bundler, same, runs) = main-initial fl env outside cli s e in
      let c = chain_spec_of cli chain_id in
      let (at, limit) = chain_spec_of_args cli chain_id in
      let first = initial fl env outside cli c bundler in
      subst (Starts events) (sym same) (
        at,
        limit,
        run-Invariant fl env c [] (started fl first) events (initial-started chain_id bundler runs),
      )

  -- Whenever `main` gets the program running, then after any events, in whatever order the
  -- validations and additions of the submissions and the moves of the bundler come and whatever the
  -- world answers: the pool is consistent and within the size that the arguments give; each
  -- operation in it passed the checks of its fields and fees, is for the entry point of the
  -- arguments and for the chain of the program, and is found under its computed hash and its
  -- identifier; the chain parameters are as at the start. A bundler that waits keeps the
  -- invariant of its state; one that removes rejected operations is building, tracks no
  -- transaction, has a bundle that was proposed and is not empty, and has a last part of the
  -- bundle's rejected operations left; one that removes a bundle's operations tracks no transaction
  -- any more, knows the block, and has a last part of the current bundle's operations left.
  pub interleaved-run :
      (s : Program fl) (events : List (Event fl))
      → main fl outside cli ≡ ok s
      → let s' = run fl env (started fl s) events in
        let c = s.api.chain_spec in
        Contains (Accepted env c) s'.program.api.op_pool
        × (size s'.program.api.op_pool ≤ cli.max_pool_size)
        × (s'.program.api.chain_spec ≡ c)
        × (c.entry_point_v0_7 ≡ cli.entry_point)
        × RunsAt (worlds_after events []) s'.progress s'.program.bundler
  unfolding of_chain_spec
  interleaved-run s events e =
      let (at, limit, v) = main-Invariant s events e in
      let p = (run fl env (started fl s) events).program.api.op_pool in
      let (l, r, all) = v.contents in
      let configured = ap (λ (x : PoolConfig). x.max_size) v.configured.pool_config ∙ limit in
      (
        v.contents,
        omega (arith, size-length p l r, r.room, configured),
        v.configured.spec,
        at,
        v.bundler_runs,
      )
