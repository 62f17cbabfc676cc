-- ===== src/Program.antt =====
-- The program (bin/bunzo/src/main.rs): what `main` sets up from its arguments, and the running
-- program, in which the RPC methods and the bundler task share one pool. A call of a method and a
-- step of the task each run as a whole; `Event` is either.
pub mod Accepted
pub mod Invariant
pub mod FromStart
pub mod Bundled
pub mod Mined
pub mod Delivered
pub mod Interleaved
pub mod Wiring
use Prim.Native.String.{String}
use bunzo.Prelude.{ℕ, ◌==◌, List, [], ◌∷◌, Option, none, some, if◌then◌else◌}
use bunzo.Prelude.Result.{Result, ok, err}
use bunzo.Types.Chain.{ChainSpec, mainnet, dev}
use bunzo.Types.UserOperation.Packing.{UserOperation, Hasher}
use bunzo.Provider.Traits.{ProviderError}
use bunzo.Pool.Entry.{of_chain_spec}
use bunzo.Pool.Store.{OperationPool}
use bunzo.Pool.Store
use bunzo.Pool.Reputation.{Float}
use bunzo.Pool.Reputation
use bunzo.Builder.Proposer
use bunzo.Builder.Task.State.{BundlerTask, World}
use bunzo.Builder.Task.State
use bunzo.Builder.Task
use bunzo.Rpc.Eth.{EthApi, send_user_operation}
use bunzo.Pool.Validation.{Validator}
use bunzo.Rpc.Server.{RpcServer}
use bunzo.Rpc.Server

-- The arguments that decide how the parts are set up.
pub record CliArgs : Type 0 where
  pub chain_id : ℕ
  pub entry_point : ℕ
  pub private_key : Option String
  pub max_pool_size : ℕ
  pub rpc_addr : ℕ × ℕ

unfoldable pub chain_spec_of : CliArgs → ℕ → ChainSpec
chain_spec_of cli chain_id =
    let known =
      if chain_id == 1
      then mainnet
      else if chain_id == 31337
      then dev
      else record mainnet { id = chain_id } in
    record known {
      entry_point_v0_7 = cli.entry_point;
      id = chain_id;
      max_pool_size = cli.max_pool_size;
    }

-- `from_private_key` of the signer, as the address of the key; and what the node answers.
pub record Environment : Type 0 where
  pub from_private_key : String → Result String ℕ
  pub get_chain_id : Result ProviderError ℕ
  pub get_nonce : Result ProviderError ℕ

-- A failure of `main` before the program runs.
pub data StartError : Type 0 where
  provider : ProviderError → StartError
  signer : String → StartError

unfoldable pub resolve_chain_id : Environment → CliArgs → Result StartError ℕ
resolve_chain_id outside cli =
    if cli.chain_id == 0
    then elim outside.get_chain_id [ err e ↦ err (provider e) | ok chain_id ↦ ok chain_id ]
    else ok cli.chain_id

-- The task runs if a key is given and the node tells the nonce: `run` ends otherwise.
unfoldable pub start_bundler :
    Environment → ChainSpec → OperationPool → Option String → Result StartError (Option BundlerTask)
start_bundler outside chain_spec pool none = ok none
start_bundler outside chain_spec pool (some prv_key) = elim (outside.from_private_key prv_key) [
  | err e ↦ err (signer e)
  | ok address ↦
      let proposer = Proposer.new pool chain_spec address in
      ok (Task.start outside.get_nonce (State.new proposer address pool chain_spec))
]

module _ (fl : Float) where
  pub record Program : Type 0 where
    pub api : EthApi fl
    pub bundler : Option BundlerTask

  -- The validator reads the pool of the API, which its calls are given.
  abbrev new_validator : ChainSpec → Validator fl
  new_validator chain_spec = record {
    chain_spec = chain_spec;
    reputation = Reputation.default_manager fl;
  }

  unfoldable pub new_server : CliArgs → ChainSpec → OperationPool → RpcServer fl
  new_server cli chain_spec pool =
      Server.with_providers fl (record (Server.default_config) { addr = cli.rpc_addr }) chain_spec
        pool (new_validator chain_spec)

  unfoldable pub main : Environment → CliArgs → Result StartError Program
  unfolding resolve_chain_id start_bundler new_server
  main outside cli = elim (resolve_chain_id outside cli) [
    | err e ↦ err e
    | ok chain_id ↦
        let chain_spec = chain_spec_of cli chain_id in
        let pool = Store.new (of_chain_spec chain_spec) in
        elim (start_bundler outside chain_spec pool cli.private_key) [
          | err e ↦ err e
          | ok bundler ↦
              ok (record { api = (new_server cli chain_spec pool).eth_api; bundler = bundler })
        ]
  ]

  -- A client submits an operation, or the bundler's clock ticks.
  pub data Event : Type 0 where
    submits : UserOperation → (entry_point : ℕ) → Event
    ticks : World → Event

  -- The task works on the pool of the API, and leaves it there.
  unfoldable pub tick : Hasher → World → Program → BundlerTask → Program
  tick env world s t =
      let t' = Task.step env world (record t { pool = s.api.op_pool }) in
      record { api = record (s.api) { op_pool = t'.pool }; bundler = some t' }

  unfoldable pub step : Hasher → Program → Event → Program
  unfolding tick
  step env s (submits user_op entry_point) = record s {
    api = (send_user_operation fl env s.api user_op entry_point).0;
  }
  step env s (ticks world) = elim s.bundler [ none ↦ s | some t ↦ tick env world s t ]

  unfoldable pub run : Hasher → Program → List Event → Program
  run env s [] = s
  run env s (event ∷ events) = run env (step env s event) events
