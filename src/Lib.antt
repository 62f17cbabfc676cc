-- ===== src/Lib.antt =====
-- The ERC-4337 bundler bunzo: a formal model of its crates and what it is proved to do.
--
-- The program takes user operations by JSON-RPC (crates/rpc), validates them and keeps them in a pool
-- (crates/pool), packs the best of them into bundles that it simulates, signs, sends and tracks until
-- they are mined (crates/builder), with the data types of crates/types, the access to the chain of
-- crates/provider and the wallets of crates/signer. The program itself (bin/bunzo) puts the parts
-- together: the RPC methods, their validator and the bundler share one pool.
--
-- The parts and their files:
-- Prelude: shared names, lists, hash maps as association lists (Prelude/Maps.antt), machine words
--   (Prelude/Words.antt), results with `?` as bind (Prelude/Result.antt).
-- Types: fees (Types/Gas.antt, crates/types/src/gas.rs), entities, chain parameters, errors, and the
--   user operation with its packed form (Types/UserOperation.antt and its children,
--   crates/types/src/user_operation/mod.rs and v0_7.rs).
-- Pool: `OperationPool` (Pool/Store.antt, crates/pool/src/pool.rs) with the order of its entries
--   (Pool/Entry.antt, Pool/Ordered.antt). Pool/Contents.antt and Pool/Represents.antt relate its five
--   indices to one abstract list of entries, Pool/Refines.antt holds the contract of the pool on that
--   list. `Validator` is Pool/Validation.antt (validation.rs), `ReputationManager` is
--   Pool/Reputation.antt (reputation.rs), `ChainWatcher` is Pool/Watcher.antt (chain.rs; its method
--   `pool` is `poll`), `StatusTracker` is Pool/Status.antt (status.rs). Pool/Concurrent.antt has `add`
--   again, one access of a lock at a time, for threads that run at the same time.
-- Builder: the state machine `BundlerTask` (Builder/Task/State.antt and Builder/Task.antt,
--   crates/builder/src/task.rs), the `TransactionTracker` (Builder/Tracker.antt), the bundle proposer
--   (Builder/Proposer.antt), the submission strategies (Builder/Strategy.antt with
--   Builder/Strategy/Router.antt and Builder/Strategy/Conditional.antt), the conflict
--   detector (Builder/Conflict.antt). Builder/Task/Moves.antt has a step of the task again, one
--   access of the pool at a time.
-- Provider: the gas oracle (Provider/GasOracle.antt, crates/provider/src/gas_oracle.rs), the interface
--   of the entry point and what the providers answer (Provider/Traits.antt, traits.rs), and the
--   providers over a client of the node: Provider/EntryPoint.antt, Provider/BundleHandler.antt and
--   Provider/Evm.antt (alloy/entry_point.rs, alloy/bundle_handler.rs, alloy/evm.rs), with the data of
--   the contract (Provider/Contracts.antt, contracts.rs) and the revert data in the text of an error
--   (Provider/Revert.antt).
-- Signer: the manager of several wallets (Signer/Manager.antt, crates/signer/src/manager.rs) and the
--   local signer (Signer/Local.antt, local.rs).
-- Rpc: the methods of the eth namespace (Rpc/Eth.antt, Rpc/Estimate.antt, Rpc/Receipt.antt,
--   crates/rpc/src/eth.rs) and the server's configuration (Rpc/Server.antt, server.rs).
-- Program: `main` and the running program (Program.antt, bin/bunzo/src/main.rs), a state that each
--   submission and each step of the bundler takes to the next. In Program/Interleaved.antt a
--   submission validates and adds at two times, and the moves of the bundler and other submissions
--   come in between. Program/Wiring.antt is the bundler as `main` puts it together: what a step is
--   answered comes from the providers, the oracle, the signer and direct submission.
-- Tests: the theorems below applied to concrete data.
--
-- A function of the model has the name of the Rust one and returns the new state of its object. A
-- method runs alone, locks and atomics are left out, and a step of the bundler runs as a whole, but
-- for Pool/Concurrent.antt, where threads come between the locks of `add`, and
-- Program/Interleaved.antt, where they come between the calls of the pool, while the validation and
-- each method of the pool run as a whole. The integers are natural numbers with the
-- wrap-around of a release build written out (u32, u64 and u128); addresses, hashes and U256 values
-- are numbers, bytes are numbers below 256. A panic is the answer `none` where the code can panic on
-- an index. The unspecified order of a `HashMap` is that of its association list.
--
-- Parameters stand for what is outside the repository: `Hasher` (Keccak-256 and the ABI encoding),
-- `Float` (f64, with three laws of IEEE 754), `Abi` (the coding that the `sol!` macro generates),
-- `HexDecoder` (const_hex), `Envelope` and `LocalSigner` (the encoding of a transaction and the
-- key), the `call` of the providers and `Client` (a client of the node), `Node`, `EvmProvider` and
-- `LogProvider` (answers of the chain; the `Node` of Program/Wiring.antt is what the clients of the
-- bundler answer during one step), `Environment` (what `main` is told), `Answers` (fees and
-- the simulation of handleOps), `World` (what the clock, the signer, the strategy and the node
-- answer during one step of the bundler), `Strategy` (one submission strategy of the router).
--
-- Loops are structural recursion. Two have fuel: `trim` of the gas oracle, which gets the length of the
-- history (one block leaves in each round), and `submit_from` of the router, which gets the number of
-- strategies (each is tried once). `retry` of the proposer counts down the attempts that the code
-- counts up; `poll` of the watcher goes over the range of new blocks.
--
-- Not modelled: the start of the HTTP server (crates/rpc/src/server.rs), the channels of the event bus
-- (crates/types/src/event.rs; the events are collected in a list), the construction of keys, the
-- texts of errors, timers and logging.
pub mod Prelude
pub mod Types
pub mod Pool
pub mod Builder
pub mod Provider
pub mod Signer
pub mod Rpc
pub mod Program
pub mod Tests
