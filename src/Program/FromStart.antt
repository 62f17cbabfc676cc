-- ===== src/Program/FromStart.antt =====
-- The running program from its start (bin/bunzo/src/main.rs, `main`).
use Prim.Native.String.{String}
use bunzo.Prelude.{
  ℕ, ◌≤◌, ◌≡◌, refl, ap, ◌∙◌, sym, subst, List, [], Option, none, some, arith, inl, inr,
}
use bunzo.Prelude.Result.{ok, Result-cases}
use bunzo.Types.Chain.{ChainSpec}
use bunzo.Types.UserOperation.Packing.{Hasher}
use bunzo.Pool.Entry.{PoolConfig, of_chain_spec}
use bunzo.Pool.Store.{OperationPool, size, remove_by_hash, remove_by_id}
use bunzo.Pool.Store
use bunzo.Pool.Represents.{new-Represents, size-length}
use bunzo.Pool.Contains.{Contains}
use bunzo.Pool.Reputation.{Float}
use bunzo.Builder.Task.State.{BundlerTask}
use bunzo.Builder.Task.Invariant.{start-Holds}
use bunzo.Builder.Proposer
use bunzo.Rpc.Eth
use bunzo.Rpc.Server
use bunzo.Program.{
  CliArgs, Environment, Program, Event, main, chain_spec_of, start_bundler, resolve_chain_id,
  new_server, run,
}
use bunzo.Program.Accepted.{Accepted}
use bunzo.Program.Invariant.{Runs, Invariant, run-Invariant}

pub chain_spec_of_quota :
    (cli : CliArgs) (chain_id : ℕ) → (chain_spec_of cli chain_id).max_ops_per_sender ≡ 4
unfolding chain_spec_of
chain_spec_of_quota cli chain_id = ground arith

pub chain_spec_of_args :
    (cli : CliArgs) (chain_id : ℕ)
    → ((chain_spec_of cli chain_id).entry_point_v0_7 ≡ cli.entry_point)
      × ((chain_spec_of cli chain_id).max_pool_size ≡ cli.max_pool_size)
unfolding chain_spec_of
chain_spec_of_args cli chain_id = (ground arith, ground arith)

start_bundler-Runs :
    (outside : Environment) (c : ChainSpec) (pool : OperationPool) (private_key : Option String)
    (bundler : Option BundlerTask)
    → start_bundler outside c pool private_key ≡ ok bundler
    → Runs bundler
unfolding start_bundler
start_bundler-Runs outside c pool private_key none e = tt
start_bundler-Runs outside c pool none (some t) e = absurd (ground arith)
start_bundler-Runs outside c pool (some key) (some t) e =
    elim (Result-cases (outside.from_private_key key)) [
      | inr (bad, refused) ↦ absurd (ground arith)
      | inl (address, loaded) ↦
          start-Holds (Proposer.new pool c address) address pool c outside.get_nonce t
            (ground arith)
    ]

module _ (fl : Float) (env : Hasher) (outside : Environment) (cli : CliArgs) where
  -- The program that `main` sets up.
  abbrev pub initial : ChainSpec → Option BundlerTask → Program fl
  initial c bundler = record {
    api = (new_server fl cli c (Store.new (of_chain_spec c))).eth_api;
    bundler = bundler;
  }

  pub initial-Invariant :
      (c : ChainSpec) (bundler : Option BundlerTask)
      → c.max_ops_per_sender ≡ 4
      → Runs bundler
      → Invariant fl env c (initial c bundler)
  unfolding new_server Server.with_providers Eth.with_providers Store.new of_chain_spec
  initial-Invariant c bundler four runs = record {
    configured = record {
      spec = refl;
      validator_spec = refl;
      no_base_fee = refl;
      pool_config = refl;
    };
    contents = ([], new-Represents (of_chain_spec c) (omega (arith, four)), tt);
    bundler_runs = runs;
  }

  -- The chain parameters of the program, and how it starts.
  pub main-initial :
      (s : Program fl)
      → main fl outside cli ≡ ok s
      → (chain_id : ℕ) × (bundler : Option BundlerTask) × (s
          ≡ initial (chain_spec_of cli chain_id) bundler)
        × Runs bundler
  unfolding main
  main-initial s e = elim (Result-cases (resolve_chain_id outside cli)) [
    | inr (x, bad) ↦ absurd (ground arith)
    | inl (chain_id, known) ↦
        let c = chain_spec_of cli chain_id in
        let pool = Store.new (of_chain_spec c) in
        elim (Result-cases (start_bundler outside c pool cli.private_key)) [
          | inr (x, bad) ↦ absurd (ground arith)
          | inl (bundler, started) ↦ (
            chain_id,
            bundler,
            ground arith,
            start_bundler-Runs outside c pool cli.private_key bundler started,
          )
        ]
  ]

  abbrev KeepsRunning : List (Event fl) → Program fl → Type 0
  KeepsRunning events s =
      let s' = run fl env s events in
      let c = s.api.chain_spec in
      Contains (Accepted env c) s'.api.op_pool
      × (size s'.api.op_pool ≤ cli.max_pool_size)
      × (s'.api.chain_spec ≡ c)
      × (c.entry_point_v0_7 ≡ cli.entry_point)
      × Runs s'.bundler

  initial_run :
      (chain_id : ℕ) (bundler : Option BundlerTask) (events : List (Event fl))
      → Runs bundler
      → KeepsRunning events (initial (chain_spec_of cli chain_id) bundler)
  unfolding new_server Server.with_providers Eth.with_providers of_chain_spec
  initial_run chain_id bundler events runs =
      let c = chain_spec_of cli chain_id in
      let s' = run fl env (initial c bundler) events in
      let v : Invariant fl env c s' =
        run-Invariant fl env c (initial c bundler) events
          (initial-Invariant c bundler (chain_spec_of_quota cli chain_id) runs) in
      let (l, r, all) = v.contents in
      let (same, limit) = chain_spec_of_args cli chain_id in
      let configured = ap (λ (x : PoolConfig). x.max_size) v.configured.pool_config ∙ limit in
      (
        v.contents,
        omega (arith, size-length s'.api.op_pool l r, r.room, configured),
        v.configured.spec,
        same,
        v.bundler_runs,
      )

  -- Whenever `main` gets the program running, then after any submissions and any steps of the
  -- bundler, in any order and whatever the world answers: the pool is consistent and within the
  -- size that the arguments give; each operation in it passed the checks of its fields and fees,
  -- is for the entry point of the arguments and for the chain of the program, and is found under
  -- its computed hash and its identifier; the chain parameters are as at the start; and the
  -- bundler, if it runs, keeps the invariant of its state.
  pub main-run :
      (s : Program fl) (events : List (Event fl))
      → main fl outside cli ≡ ok s
      → let s' = run fl env s events in
        let c = s.api.chain_spec in
        Contains (Accepted env c) s'.api.op_pool
        × (size s'.api.op_pool ≤ cli.max_pool_size)
        × (s'.api.chain_spec ≡ c)
        × (c.entry_point_v0_7 ≡ cli.entry_point)
        × Runs s'.bundler
  main-run s events e =
      let (chain_id, bundler, same, runs) = main-initial s e in
      subst (KeepsRunning events) (sym same) (initial_run chain_id bundler events runs)
