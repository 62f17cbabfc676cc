-- ===== src/Program/Wiring.antt =====
-- The bundler as `main` puts it together (bin/bunzo/src/main.rs): what a step of the task is answered
-- comes from the providers over clients of the node, from the gas oracle, from the local signer and
-- from direct submission. `Node` is what the clients answer during one step.
pub mod Made
pub mod Sent
pub mod Simulated
use Prim.Native.String.{String, ◌++◌}
use bunzo.Prelude.{ℕ, List, Option, none, some}
use bunzo.Prelude.Result.{Result, ok, err, map_err}
use bunzo.Types.Gas.{GasFees}
use bunzo.Types.UserOperation.Packing.{PackedUserOperation, Hasher}
use bunzo.Provider.Traits.{ProviderError, HandleOpsOut, other}
use bunzo.Provider.Contracts.{Abi}
use bunzo.Provider.Revert.{HexDecoder}
use bunzo.Provider.Evm.{
  Client, get_nonce, get_transaction_receipt, get_base_fee, get_max_priority_fee, get_block_number,
}
use bunzo.Provider.BundleHandler.{HandleOpsTx, AlloyBundleHandler, call_handle_ops}
use bunzo.Provider.GasOracle.{ProviderGasOracle, current_fees, base_fee}
use bunzo.Provider.GasOracle as Oracle
use bunzo.Signer.Local.{Envelope, LocalSigner, sign_transaction}
use bunzo.Signer.Local.Wire.{request_of}
use bunzo.Builder.Tracker.{Receipt}
use bunzo.Builder.Strategy.{submit_direct, cancel_direct}
use bunzo.Builder.Proposer.{Answers}
use bunzo.Builder.Task.State.{BundlerTask, World, BundleSenderState, building}
use bunzo.Builder.Task

-- Each client has its own transport: the one of the bundle handler, that of the gas oracle, which
-- is asked twice by a proposal, and that of the other parts. An error is its text.
pub record Node (Tx Filter Log : Type 0) : Type 0 where
  pub now : ℕ
  pub client : Client String Tx Filter Log Receipt
  pub call : (attempt : ℕ) → HandleOpsTx → Result (List ℕ) (List ℕ)
  pub for_fees : Oracle.EvmProvider
  pub for_base_fee : Oracle.EvmProvider

-- The text of `ProviderError::Transport`.
abbrev pub transport_text : String → String
transport_text e = "rpc transport error: " ++ e

module _ (Tx Filter Log : Type 0) (abi : Abi) (hex : HexDecoder) (wire : Envelope)
    (signer : LocalSigner) (entry_point : ℕ) where
  abbrev pub handler : Node Tx Filter Log → ℕ → AlloyBundleHandler
  handler node attempt = record { call = node.call attempt; entry_point = entry_point }

  -- A call that panics ends the task; here it ends the proposal, which does not send either.
  unfoldable pub simulate :
      Node Tx Filter Log
      → ℕ
      → List PackedUserOperation
      → (beneficiary total_gas : ℕ) → GasFees
      → Result ProviderError HandleOpsOut
  simulate node attempt ops beneficiary total_gas fees =
      elim (call_handle_ops abi hex (handler node attempt) ops beneficiary total_gas fees) [
        | none ↦ err other
        | some answer ↦ answer
      ]

  unfoldable pub send_raw : Node Tx Filter Log → List ℕ → Result String ℕ
  send_raw node raw_tx = map_err transport_text (node.client.send_raw_transaction raw_tx)

  -- What the proposer is answered: the oracle is asked for its fees and then for the base fee.
  unfoldable pub answers : Node Tx Filter Log → ProviderGasOracle → Answers
  unfolding simulate
  answers node oracle =
      let (oracle', fees) = current_fees node.for_fees oracle in
      record {
        current_fees = fees;
        base_fee = (base_fee node.for_base_fee oracle').1;
        call_handle_ops = simulate node;
      }

  unfoldable pub world_of : Node Tx Filter Log → ProviderGasOracle → World
  unfolding answers send_raw
  world_of node oracle =
      let client = node.client in
      record {
        now = node.now;
        proposer_answers = answers node oracle;
        sign_transaction = λ tx chain_id. sign_transaction wire signer (request_of tx) chain_id;
        submit = λ raw_tx. submit_direct (send_raw node raw_tx);
        cancel = λ _ cancel_tx. cancel_direct cancel_tx (send_raw node);
        get_receipt =
            λ tx_hash. get_transaction_receipt String Tx Filter Log Receipt client tx_hash;
        get_nonce = get_nonce String Tx Filter Log Receipt client signer.address;
        get_base_fee = get_base_fee String Tx Filter Log Receipt client;
        get_priority_fee = get_max_priority_fee String Tx Filter Log Receipt client;
        get_block_number = get_block_number String Tx Filter Log Receipt client;
        encode_handle_ops = abi.encode_handle_ops;
      }

  -- The oracle after a step: only a proposal asks it, for the base fee only if it told its fees.
  unfoldable pub oracle_after :
      Node Tx Filter Log → BundleSenderState → ProviderGasOracle → ProviderGasOracle
  oracle_after node building oracle =
      let (oracle', fees) = current_fees node.for_fees oracle in
      elim fees [ err e ↦ oracle' | ok _ ↦ (base_fee node.for_base_fee oracle').0 ]
  oracle_after node _ oracle = oracle

  -- A step of the task with its oracle.
  unfoldable pub step :
      Hasher
      → Node Tx Filter Log
      → ProviderGasOracle × BundlerTask
      → ProviderGasOracle × BundlerTask
  unfolding world_of oracle_after
  step env node (oracle, t) =
      (oracle_after node t.state oracle, Task.step env (world_of node oracle) t)
