-- ===== src/Provider/EntryPoint.antt =====
-- The calls of the entry point (crates/provider/src/alloy/entry_point.rs). The client's `call` takes
-- a request and answers the returned bytes, or an error by its text.
pub mod ValidationData
use bunzo.Prelude.{
  ℕ, ◌/◌, ◌%◌, ◌^◌, ◌==◌, Bool, List, [], ◌∷◌, map, Option, none, some, if◌then◌else◌,
}
use bunzo.Prelude.Words.{to_uint, u64_mod, u128_mod}
use bunzo.Prelude.Result.{Result, ok, err}
use bunzo.Types.Validation.{StakeInfo, ValidationOutput, ValidationRevert}
use bunzo.Types.UserOperation.Packing.{PackedUserOperation}
use bunzo.Provider.Traits.{
  ProviderError, transport, simulation_failed, invalid_response, ExecutionResult,
  EntryPointProvider,
}
use bunzo.Provider.Contracts.{Abi, ValidationResult}
use bunzo.Provider.Contracts
use bunzo.Provider.Revert.{HexDecoder, extract_revert_data, decode_validation_revert}

-- The aggregator or the failure of the signature, and the times that bound the validity.
unfoldable pub parse_validation_data : ℕ → Bool × ℕ × ℕ
parse_validation_data word =
    let valid_after = word % 2 ^ 48 in
    let valid_until = word / 2 ^ 48 % 2 ^ 48 in
    let sig = word / 2 ^ 160 in (sig == 1, valid_after, valid_until)

pub record CallRequest : Type 0 where
  pub to : ℕ
  pub input : List ℕ

pub record AlloyEntryPointProvider : Type 0 where
  pub call : CallRequest → Result (List ℕ) (List ℕ)
  pub entry_point : ℕ

unfoldable pub stake_info : Contracts.StakeInfo → Option StakeInfo
stake_info info = elim (to_uint u64_mod info.unstake_delay_sec) [
  | none ↦ none
  | some delay ↦ some (record { stake = info.stake; unstake_delay_sec = delay })
]

abbrev and_then : {A B : Type 0} → Option A → (A → Option B) → Option B
and_then none f = none
and_then (some a) f = f a

-- A number that does not fit its type is a panic: `none`.
unfoldable pub validation_output : ValidationResult → Option ValidationOutput
unfolding parse_validation_data stake_info
validation_output vr =
    let (account_sig_failed, valid_after, valid_until) =
      parse_validation_data vr.return_info.account_validation_data in
    let (paymaster_sig_failed, _, _) =
      parse_validation_data vr.return_info.paymaster_validation_data in
    and_then (to_uint u128_mod vr.return_info.pre_op_gas) λ pre_op_gas.
      and_then (stake_info vr.sender_info) λ sender_info.
        and_then (stake_info vr.factory_info) λ factory_info.
          and_then (stake_info vr.paymaster_info) λ paymaster_info. some (record {
            pre_op_gas = pre_op_gas;
            prefund = vr.return_info.prefund;
            valid_after = valid_after;
            valid_until = valid_until;
            account_sig_failed = account_sig_failed;
            paymaster_sig_failed = paymaster_sig_failed;
            sender_info = sender_info;
            factory_info = factory_info;
            paymaster_info = paymaster_info;
            aggregator =
                if vr.aggregator_info.aggregator == 0
                then none
                else some vr.aggregator_info.aggregator;
          })

unfoldable pub execution_result : Contracts.ExecutionResult → Option ExecutionResult
execution_result er = elim (to_uint u128_mod er.pre_op_gas) [
  | none ↦ none
  | some pre_op_gas ↦ some (record {
    pre_op_gas = pre_op_gas;
    paid = er.paid;
    target_success = er.target_success;
    target_result = er.target_result;
  })
]

unfoldable pub encode_handle_ops : Abi → List PackedUserOperation → ℕ → List ℕ
encode_handle_ops abi ops beneficiary = abi.encode_handle_ops ops beneficiary

module _ (abi : Abi) (hex : HexDecoder) (p : AlloyEntryPointProvider) where
  -- What the code makes of an error of a simulating call.
  unfoldable pub simulation_error :
      {A : Type 0} → List ℕ → Option (Result ProviderError (Result ValidationRevert A))
  simulation_error text = elim (extract_revert_data hex text) [
    | none ↦ some (err simulation_failed)
    | some bytes ↦ elim (decode_validation_revert abi bytes) [
      | none ↦ none
      | some reverted ↦ some (ok (err reverted))
    ]
  ]

  unfoldable pub simulate_validation :
      PackedUserOperation → Option (Result ProviderError (Result ValidationRevert ValidationOutput))
  unfolding simulation_error validation_output
  simulate_validation user_op =
      elim (p.call
        (record { to = p.entry_point; input = abi.encode_simulate_validation user_op })) [
          | err text ↦ simulation_error text
          | ok output ↦ elim (abi.decode_validation_result output) [
            | none ↦ some (err invalid_response)
            | some vr ↦ elim (validation_output vr) [ none ↦ none | some out ↦ some (ok (ok out)) ]
          ]
        ]

  unfoldable pub simulate_handle_op :
      PackedUserOperation
      → (target : ℕ) → List ℕ
      → Option (Result ProviderError (Result ValidationRevert ExecutionResult))
  unfolding simulation_error execution_result
  simulate_handle_op user_op target target_call_data =
      let input = abi.encode_simulate_handle_op user_op target target_call_data in
      elim (p.call (record { to = p.entry_point; input = input })) [
        | err text ↦ simulation_error text
        | ok output ↦ elim (abi.decode_execution_result output) [
          | none ↦ some (err invalid_response)
          | some er ↦ elim (execution_result er) [ none ↦ none | some out ↦ some (ok (ok out)) ]
        ]
      ]

  -- A call that returns one word.
  unfoldable pub call_word : List ℕ → Result ProviderError ℕ
  call_word input = elim (p.call (record { to = p.entry_point; input = input })) [
    | err _ ↦ err transport
    | ok output ↦ elim (abi.decode_word output) [ none ↦ err invalid_response | some w ↦ ok w ]
  ]

  unfoldable pub get_user_op_hash : PackedUserOperation → Result ProviderError ℕ
  unfolding call_word
  get_user_op_hash user_op = call_word (abi.encode_get_user_op_hash user_op)

  unfoldable pub get_balance_of : ℕ → Result ProviderError ℕ
  unfolding call_word
  get_balance_of address = call_word (abi.encode_balance_of address)

  unfoldable pub entry_point_provider : EntryPointProvider
  unfolding simulate_validation simulate_handle_op encode_handle_ops get_user_op_hash get_balance_of
  entry_point_provider = record {
    simulate_validation = simulate_validation;
    simulate_handle_op = simulate_handle_op;
    encode_handle_ops = encode_handle_ops abi;
    get_user_op_hash = get_user_op_hash;
    get_balance_of = get_balance_of;
  }
