-- ===== src/Tests/Wiring.antt =====
-- The theorem on the bundler with its providers, signer and strategy.
use Prim.Native.String.{String}
use bunzo.Prelude.{refl, [], none}
use bunzo.Prelude.Result.{ok}
use bunzo.Signer.Local.{TxEip1559}
use bunzo.Provider.Evm.{Client}
use bunzo.Provider.GasOracle as Oracle
use bunzo.Builder.Tracker.{Receipt}
use bunzo.Builder.Task.State.{BundlerTask, building}
use bunzo.Program.Wiring.{Node, step}
use bunzo.Program.Wiring.Made.{WasSimulated}
use bunzo.Program.Wiring.Sent.{WasSent}
use bunzo.Program.Wiring.Simulated.{step-Simulated}
use bunzo.Tests.Data.{hasher}
use bunzo.Tests.Builder.{proposals}
use bunzo.Tests.Bundler.{started}
use bunzo.Tests.Node.{abi, hex}
use bunzo.Tests.Wire.{wire, key}

-- A node that takes every call and every transaction.
abbrev client : Client String (Unit {0}) (Unit {0}) (Unit {0}) Receipt
client = record {
  call = λ tx block. ok [];
  get_logs = λ filter. ok [];
  get_block_by_number = λ block. ok none;
  get_block_number = ok 9;
  get_transaction_count = λ address. ok 4;
  get_balance = λ address. ok 0;
  send_raw_transaction = λ raw_tx. ok 77;
  get_transaction_receipt = λ tx_hash. ok none;
  get_chain_id = ok 31337;
  get_max_priority_fee_per_gas = ok 1;
}

abbrev at_block : Oracle.EvmProvider
at_block = record { get_block_number = ok 9; get_base_fee = ok 5; get_max_priority_fee = ok 1 }

abbrev node : Node (Unit {0}) (Unit {0}) (Unit {0})
node = record {
  now = 100;
  client = client;
  call = λ attempt tx. ok [];
  for_fees = at_block;
  for_base_fee = at_block;
}

abbrev proposing : BundlerTask
proposing = record started { state = building }

step-Simulated_example :
    let s =
      step
        (Unit {0})
        (Unit {0})
        (Unit {0})
        abi
        hex
        wire
        key
        0
        hasher
        node
        (Oracle.new, proposing) in
    let t' = (step (Unit {0}) (Unit {0}) (Unit {0}) abi hex wire key 0 hasher node s).1 in
    (tx : TxEip1559) × WasSimulated
      (Unit {0})
      (Unit {0})
      (Unit {0})
      abi
      hex
      wire
      key
      0
      node
      proposing
      tx
    × WasSent (Unit {0}) (Unit {0}) (Unit {0}) abi hex wire key 0 node proposing t' tx
unfolding proposals step bunzo.Builder.Task.step bunzo.Builder.Task.handle
    bunzo.Builder.Task.handle_building Oracle.current_fees Oracle.base_fee
    bunzo.Provider.BundleHandler.call_handle_ops bunzo.Builder.Proposer.is_empty
    bunzo.Builder.Task.handle_submitting bunzo.Signer.Local.sign_transaction
    bunzo.Builder.Strategy.submit_direct
step-Simulated_example =
    step-Simulated (Unit {0}) (Unit {0}) (Unit {0}) abi hex wire key 0 hasher node node Oracle.new
      proposing refl refl refl refl
