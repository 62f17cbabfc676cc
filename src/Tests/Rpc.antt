-- ===== src/Tests/Rpc.antt =====
-- The theorems on the RPC methods.
use bunzo.Prelude.{ℕ, ◌^◌, ◌<◌, ◌≡◌, ◌≢◌, refl, true, List, [], ◌∷◌, Option, none, some, arith}
use bunzo.Types.Chain.{dev}
use bunzo.Types.UserOperation.Packing.{UserOperation}
use bunzo.Types.UserOperation as Op
use bunzo.Rpc.Eth.{EthApi, send_user_operation, get_user_operation_by_hash}
use bunzo.Rpc.Submit.{send_user_operation_accepted}
use bunzo.Rpc.Receipt.{receipt_of}
use bunzo.Rpc.Receipt.Decode.{event_data, receipt_of-event}
use bunzo.Tests.Data.{hasher, fractions, op_next, pool_ab, empty, empty-Represents}
use bunzo.Tests.Reputation.{validator}

abbrev pub api : EthApi fractions
api = record { chain_spec = dev; op_pool = pool_ab; validator = validator; base_fee = 0 }

abbrev pub fresh : EthApi fractions
fresh = record api {
  op_pool = empty;
  validator = record validator {
    chain_spec = dev;
    reputation = record validator.reputation { entries = [] };
  };
}

abbrev pub op_sent : UserOperation
op_sent = Op.set_context hasher op_next 0 31337

-- The functions that the submissions compute.
unfoldable pub submissions : Unit {0}
unfolding bunzo.Types.UserOperation.Bytes.of_be bunzo.Types.UserOperation.Bytes.to_be
    bunzo.Types.UserOperation.Packing.pack send_user_operation bunzo.Types.Chain.is_entry_point
    bunzo.Pool.Validation.validate_sync bunzo.Pool.Validation.validate_static_fields Op.set_context
    bunzo.Pool.Validation.validate_gas_price bunzo.Types.Gas.covers Op.gas_fees
    bunzo.Pool.Validation.validate_nonce bunzo.Pool.Store.get_by_id bunzo.Prelude.Maps.get
    bunzo.Pool.Store.new bunzo.Pool.Store.max_nonce_sequence
    bunzo.Pool.Validation.validate_reputation bunzo.Pool.Validation.check_entities Op.entities
    bunzo.Pool.Reputation.check_entity bunzo.Pool.Store.add bunzo.Pool.Entry.id_discrete
    bunzo.Pool.Reputation.status bunzo.Pool.Store.admit bunzo.Pool.Store.size
    bunzo.Pool.Validation.validate_pure bunzo.Types.UserOperation.Nonce.nonce_key
    bunzo.Types.UserOperation.Nonce.nonce_sequence Op.compute_hash Op.hash Op.id Op.with_hash
    bunzo.Prelude.ℕ_discrete
submissions = tt

send_user_operation_accepted_example :
    (Op.compute_hash hasher op_sent ≡ Op.compute_hash hasher op_sent)
    × (get_user_operation_by_hash fractions
          (send_user_operation fractions hasher fresh op_next 0).0
          (Op.compute_hash hasher op_sent)
        ≡ some (record {
          user_operation = op_sent;
          entry_point = 0;
          block_number = none;
          block_hash = none;
          transaction_hash = none;
        }))
unfolding submissions
send_user_operation_accepted_example =
    send_user_operation_accepted fractions hasher fresh op_next 0 []
      (Op.compute_hash hasher op_sent) empty-Represents refl

receipt_of-event_example :
    receipt_of 12
      (record {
        topics = 99 ∷ 12 ∷ 7 ∷ 0 ∷ [];
        data_bytes = event_data 3 true 1000 21000;
        transaction_hash = some 5;
      })
      none
    ≡ record {
      user_op_hash = 12;
      sender = 7;
      nonce = 3;
      paymaster = none;
      actual_gas_cost = 1000;
      actual_gas_used = 21000;
      success = true;
      reason = "";
      receipt = none;
    }
receipt_of-event_example =
    receipt_of-event 99 12 7 0 3 true 1000 21000 (some 5) none (omega arith) (omega arith)
      (omega arith) (omega arith) (omega arith)
