-- ===== src/Tests/Node.antt =====
-- The theorems on the answers of the node, and on what is signed for it.
use bunzo.Prelude.{
  ◌≤◌, ℕ, ◌+◌, ◌-◌, ◌*◌, ◌/◌, ◌%◌, ◌<◌, ◌≡◌, refl, true, false, List, [], ◌∷◌, ◌++◌, Option, none,
  some, arith, ltb, if◌then◌else◌, All,
}
use bunzo.Prelude.Words.{u128_mod}
use bunzo.Prelude.Result.{ok, err}
use bunzo.Types.Chain.{dev}
use bunzo.Types.Gas.{GasEstimate}
use bunzo.Types.Validation.{ValidationOutput, StakeInfo, ValidationRevert}
use bunzo.Types.UserOperation.OptionalGas.{UserOperationOptionalGas}
use bunzo.Provider.Contracts.{Abi, ValidationResult, ReturnInfo, AggregatorStakeInfo}
use bunzo.Provider.Contracts
use bunzo.Provider.Revert.{HexDecoder, to_hex, hex_digit}
use bunzo.Provider.Revert
use bunzo.Provider.EntryPoint.{AlloyEntryPointProvider, parse_validation_data}
use bunzo.Provider.EntryPoint.ValidationData.{pack_validation_data, parse-pack_validation_data}
use bunzo.Provider.BundleHandler.{AlloyBundleHandler}
use bunzo.Builder.Proposer.{Answers, retry, remove_at}
use bunzo.Builder.Proposer.Reported.{plain, retry-Blames}
use bunzo.Rpc.Eth.{validation_reverted}
use bunzo.Rpc.Estimate.OverNode.{
  CallGas, full_op, method, estimate_user_operation_gas-reverted, estimate_user_operation_gas-paid,
}
use bunzo.Tests.Data.{hasher, fractions, entry_a, entry_b}
use bunzo.Tests.Builder.{proposer, fees}
use bunzo.Tests.Rpc.{api}

-- A signature that failed: the aggregator is 1.
parse-pack_validation_data_example :
    parse_validation_data (pack_validation_data 1 2000 1000) ≡ (false, 1000, 2000)
parse-pack_validation_data_example =
    parse-pack_validation_data 1 2000 1000 (omega arith) (omega arith)

abbrev digit_value : ℕ → ℕ
digit_value c = if ltb c b'a' then c - b'0' else c - b'a' + 10

abbrev pub decode : List ℕ → Option (List ℕ)
decode [] = some []
decode (c ∷ []) = none
decode (c ∷ d ∷ digits) = elim (decode digits) [
  | none ↦ none
  | some bytes ↦ some ((digit_value c * 16 + digit_value d) ∷ bytes)
]

digit_value-hex_digit : (n : ℕ) → n < 16 → digit_value (hex_digit n) ≡ n
digit_value-hex_digit n small = ground arith

pub decode-to_hex : (bytes : List ℕ) → All (λ b. b < 256) bytes → decode (to_hex bytes) ≡ some bytes
decode-to_hex [] small = refl
decode-to_hex (b ∷ bytes) small =
    let high = digit_value-hex_digit (b / 16) (omega (arith, small.0)) in
    let low = digit_value-hex_digit (b % 16) (omega arith) in
    let byte : b / 16 * 16 + b % 16 ≡ b = omega arith in
    rw (decode-to_hex bytes small.1, high, low, byte) refl

abbrev pub hex : HexDecoder
hex = record { decode = decode; decode-to_hex = decode-to_hex }

abbrev no_stake : Contracts.StakeInfo
no_stake = record { stake = 0; unstake_delay_sec = 0 }

abbrev validated : ValidationResult
validated = record {
  return_info = record {
    pre_op_gas = 50000;
    prefund = 0;
    account_validation_data = 0;
    paymaster_validation_data = 0;
    paymaster_context = [];
  };
  sender_info = no_stake;
  factory_info = no_stake;
  paymaster_info = no_stake;
  aggregator_info = record { aggregator = 0; stake_info = no_stake };
}

abbrev executed : Contracts.ExecutionResult
executed = record {
  pre_op_gas = 50000;
  paid = 7000000;
  account_validation_data = 0;
  paymaster_validation_data = 0;
  target_success = true;
  target_result = [];
}

abbrev blame : Contracts.EntryPointError
blame = Contracts.failed_op 1 "AA21"

abbrev pub abi : Abi
abi = record {
  encode_simulate_validation = λ op. 1 ∷ [];
  encode_simulate_handle_op = λ op target call_data. 2 ∷ [];
  encode_handle_ops = λ ops beneficiary. 3 ∷ [];
  encode_get_user_op_hash = λ op. 4 ∷ [];
  encode_balance_of = λ account. 5 ∷ [];
  decode_validation_result = λ output. some validated;
  decode_execution_result = λ output. some executed;
  decode_word = λ output. none;
  decode_error = λ bytes. some blame;
}

-- `e 0x220266d1"`.
abbrev before : List ℕ
before = b'e' ∷ b' ' ∷ []

abbrev error_bytes : List ℕ
error_bytes = 0x22 ∷ 0x02 ∷ 0x66 ∷ 0xd1 ∷ []

abbrev after : List ℕ
after = b'"' ∷ []

abbrev text : List ℕ
text = before ++ (b'0' ∷ b'x' ∷ (to_hex error_bytes ++ after))

abbrev handler : AlloyBundleHandler
handler = record { call = λ tx. err text; entry_point = 0 }

abbrev blaming : Answers
blaming = record {
  current_fees = ok fees;
  base_fee = ok 5;
  call_handle_ops = λ attempt ops beneficiary gas f. ok (bunzo.Provider.Traits.failed_op 1 "AA21");
}

retry-Blames_example :
    retry blaming proposer fees 1 0 (entry_b ∷ entry_a ∷ []) []
    ≡ retry blaming proposer fees 0 1
        (remove_at 1 (entry_b ∷ entry_a ∷ []))
        (record { hash = entry_a.hash; reason = "AA21" } ∷ [])
unfolding bunzo.Provider.BundleHandler.call_handle_ops bunzo.Provider.BundleHandler.handle_ops_error
    bunzo.Provider.BundleHandler.decode_handle_ops Revert.extract_revert_data Revert.find_0x
    Revert.hex_prefix Revert.is_ascii_hexdigit Revert.decode_digits
    bunzo.Provider.BundleHandler.build_handle_ops_tx
retry-Blames_example =
    retry-Blames abi hex (λ attempt. handler) blaming (λ attempt ops beneficiary gas f. refl)
      proposer fees 0 0 (entry_b ∷ entry_a ∷ []) [] entry_a before error_bytes after 1 "AA21" refl
      refl (omega arith) (omega arith) refl (plain refl) (omega arith) refl

abbrev asked : UserOperationOptionalGas
asked = record {
  sender = 7;
  nonce = 3;
  call_data = [];
  signature = [];
  factory = none;
  factory_data = [];
  paymaster = none;
  paymaster_data = [];
  call_gas_limit = none;
  verification_gas_limit = none;
  pre_verification_gas = none;
  max_fee_per_gas = none;
  max_priority_fee_per_gas = none;
  paymaster_verification_gas_limit = none;
  paymaster_post_op_gas_limit = none;
}

abbrev refusing : AlloyEntryPointProvider
refusing = record { call = λ request. err text; entry_point = 0 }

abbrev answering : AlloyEntryPointProvider
answering = record { call = λ request. ok []; entry_point = 0 }

estimate_user_operation_gas-reverted_example :
    method fractions hasher abi hex refusing api asked 0
    ≡ some (err (validation_reverted (ValidationRevert.failed_op 1 "AA21")))
unfolding bunzo.Types.Chain.is_entry_point Revert.find_0x Revert.is_ascii_hexdigit
    Revert.decode_validation_revert
estimate_user_operation_gas-reverted_example =
    estimate_user_operation_gas-reverted fractions hasher abi hex refusing api asked 0 refl before
      error_bytes after (ValidationRevert.failed_op 1 "AA21") refl refl (omega arith) (omega arith)
      refl refl

abbrev free : StakeInfo
free = record { stake = 0; unstake_delay_sec = 0 }

abbrev valid : ValidationOutput
valid = record {
  pre_op_gas = 50000;
  prefund = 0;
  valid_after = 0;
  valid_until = 0;
  account_sig_failed = false;
  paymaster_sig_failed = false;
  sender_info = free;
  factory_info = free;
  paymaster_info = free;
  aggregator = none;
}

estimate_user_operation_gas-paid_example :
    let op = full_op fractions hasher abi hex answering api asked 0 in
    (executed.paid < u128_mod
      → (g : GasEstimate) × (method fractions hasher abi hex answering api asked 0 ≡ some (ok g))
        × (g.verification_gas_limit ≡ 50000)
        × (op.paymaster ≡ none → g.paymaster_verification_gas_limit ≡ none)
        × ((paymaster : ℕ)
            → op.paymaster ≡ some paymaster
            → g.paymaster_verification_gas_limit ≡ some 50000)
        × CallGas 0 50000 executed g.call_gas_limit)
    × (executed.pre_op_gas ≤ 50000
        → u128_mod ≤ executed.paid
        → method fractions hasher abi hex answering api asked 0 ≡ none)
unfolding bunzo.Types.Chain.is_entry_point bunzo.Provider.EntryPoint.validation_output
    parse_validation_data bunzo.Provider.EntryPoint.stake_info
estimate_user_operation_gas-paid_example =
    estimate_user_operation_gas-paid fractions hasher abi hex answering api asked 0 refl [] []
      validated executed valid refl refl refl refl refl (omega arith)
