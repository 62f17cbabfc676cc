-- ===== src/Rpc/Receipt.antt =====
-- crates/rpc/src/eth.rs, `get_user_operation_receipt`: the receipt that is read from the log of the
-- entry point's event. Topics are numbers, the data of a log is its bytes.
pub mod Decode
use Prim.Native.String.{String}
use bunzo.Prelude.{
  ℕ, ◌+◌, ◌-◌, ◌%◌, ◌^◌, ◌==◌, ◌≡◌, Bool, true, false, List, [], ◌∷◌, Option, none, some, ltb, leb,
  not, unwrap_or, if◌then◌else◌, length, get_elem?, take, drop,
}
use bunzo.Prelude.Result.{Result, ok, err}
use bunzo.Types.UserOperation.Bytes.{of_be}
use bunzo.Provider.Traits.{ProviderError}
use bunzo.Rpc.Eth.{RpcError, internal}

pub record EventLog : Type 0 where
  pub topics : List ℕ
  pub data_bytes : List ℕ
  pub transaction_hash : Option ℕ

-- The node's part: `get_logs` with the first and the last block and the operation's hash, and the
-- receipt of a transaction, as its JSON value.
pub record LogProvider : Type 0 where
  pub get_block_number : Result ProviderError ℕ
  pub get_logs : (from_block to_block hash : ℕ) → Result ProviderError (List EventLog)
  pub get_transaction_receipt : ℕ → Result ProviderError (Option (List ℕ))

pub record UserOperationReceipt : Type 0 where
  pub user_op_hash : ℕ
  pub sender : ℕ
  pub nonce : ℕ
  pub paymaster : Option ℕ
  pub actual_gas_cost : ℕ
  pub actual_gas_used : ℕ
  pub success : Bool
  pub reason : String
  pub receipt : Option (List ℕ)

-- `Address::from_slice(&topic[12..])`.
unfoldable pub topic_address : ℕ → ℕ
topic_address topic = topic % 2 ^ 160

unfoldable pub sender_of : List ℕ → ℕ
unfolding topic_address
sender_of topics = elim (get_elem? topics 2) [ none ↦ 0 | some t ↦ topic_address t ]

unfoldable pub paymaster_of : List ℕ → Option ℕ
unfolding topic_address
paymaster_of topics = elim (get_elem? topics 3) [
  | none ↦ none
  | some t ↦ if topic_address t == 0 then none else some (topic_address t)
]

-- Nonce, success, gas cost and gas used; `data[63]` is in range.
unfoldable pub decode_data : List ℕ → ℕ × Bool × ℕ × ℕ
decode_data bytes =
    if leb 128 (length bytes)
    then (
      of_be (take 32 bytes),
      not (unwrap_or (get_elem? bytes 63) 0 == 0),
      of_be (take 32 (drop 64 bytes)),
      of_be (take 32 (drop 96 bytes)),
    )
    else (0, false, 0, 0)

unfoldable pub receipt_of : ℕ → EventLog → Option (List ℕ) → UserOperationReceipt
unfolding sender_of paymaster_of decode_data
receipt_of hash log receipt =
    let (nonce, success, actual_gas_cost, actual_gas_used) = decode_data log.data_bytes in
    record {
      user_op_hash = hash;
      sender = sender_of log.topics;
      nonce = nonce;
      paymaster = paymaster_of log.topics;
      actual_gas_cost = actual_gas_cost;
      actual_gas_used = actual_gas_used;
      success = success;
      reason = "";
      receipt = receipt;
    }

-- The receipt once the log is found: a transaction hash of zero is not looked up.
unfoldable pub with_transaction :
    LogProvider → ℕ → EventLog → Result RpcError (Option UserOperationReceipt)
unfolding receipt_of
with_transaction provider hash log =
    let tx_hash = unwrap_or log.transaction_hash 0 in
    if tx_hash == 0
    then ok (some (receipt_of hash log none))
    else elim (provider.get_transaction_receipt tx_hash) [
      | err _ ↦ err internal
      | ok receipt ↦ ok (some (receipt_of hash log receipt))
    ]

unfoldable pub get_user_operation_receipt :
    Option LogProvider → ℕ → Result RpcError (Option UserOperationReceipt)
unfolding with_transaction
get_user_operation_receipt none hash = ok none
get_user_operation_receipt (some provider) hash = elim provider.get_block_number [
  | err _ ↦ err internal
  | ok current_block ↦ elim (provider.get_logs (current_block - 1000) current_block hash) [
    | err _ ↦ err internal
    | ok [] ↦ ok none
    | ok (log ∷ logs) ↦ with_transaction provider hash log
  ]
]
