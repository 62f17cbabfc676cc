-- ===== src/Rpc/Estimate/OverNode.antt =====
-- The gas estimate over the node (crates/rpc/src/eth.rs with
-- crates/provider/src/alloy/entry_point.rs).
use bunzo.Prelude.{
  ℕ, ◌+◌, ◌*◌, ◌-◌, ◌⊎◌, inl, inr, ◌/◌, ◌<◌, ◌≤◌, ◌≡◌, refl, true, max, List, [], ◌∷◌, ◌++◌, Option,
  none, some, arith, length, All,
}
use native.Mathlib.Nat.{div-mul-le_self, div-lt_iff_lt-mul}
use bunzo.Prelude.Words.{u128_mod}
use bunzo.Prelude.Result.{Result, ok, err}
use bunzo.Types.Chain.{is_entry_point}
use bunzo.Types.Gas.{GasEstimate}
use bunzo.Types.UserOperation.Packing.{UserOperation, Hasher, pack}
use bunzo.Types.UserOperation.OptionalGas.{UserOperationOptionalGas, into_user_operation}
use bunzo.Types.Validation.{ValidationOutput, ValidationRevert}
use bunzo.Provider.Traits.{ExecutionResult}
use bunzo.Provider.Contracts.{Abi, ValidationResult}
use bunzo.Provider.Contracts
use bunzo.Provider.Revert.{HexDecoder, to_hex, find_0x, decode_validation_revert}
use bunzo.Provider.Revert.Extract.{EndsDigits, extract_revert_data-append}
use bunzo.Provider.EntryPoint.{
  AlloyEntryPointProvider, entry_point_provider, simulate_validation, simulate_handle_op,
  simulation_error, validation_output, execution_result,
}
use bunzo.Pool.Reputation.{Float}
use bunzo.Rpc.Eth.{EthApi, RpcError, validation_reverted}
use bunzo.Rpc.Estimate.{estimate_user_operation_gas, simulate, executed, call_gas_limit, estimate}

abbrev result_of : Contracts.ExecutionResult → ExecutionResult
result_of er = record {
  pre_op_gas = er.pre_op_gas;
  paid = er.paid;
  target_success = er.target_success;
  target_result = er.target_result;
}

execution_result_fits :
    (er : Contracts.ExecutionResult)
    → er.pre_op_gas < u128_mod
    → execution_result er ≡ some (result_of er)
unfolding execution_result
execution_result_fits er small = ground arith

le-or-lt : (a b : ℕ) → (a ≤ b) ⊎ (b < a)
le-or-lt a b = ground arith

-- The call gas: what the execution needed before it beyond the validation, where that is more;
-- otherwise the quotient of the amount paid by the base fee, or by 1 where that is 0.
abbrev pub CallGas : (base_fee validation_gas : ℕ) → Contracts.ExecutionResult → ℕ → Type 0
CallGas base_fee validation_gas er call_gas =
    (validation_gas < er.pre_op_gas → validation_gas + call_gas ≡ er.pre_op_gas)
    × (er.pre_op_gas ≤ validation_gas
        → (call_gas * max base_fee 1 ≤ er.paid) × (er.paid < (call_gas + 1) * max base_fee 1))

call_gas_limit-CallGas :
    (base_fee validation_gas : ℕ) (er : Contracts.ExecutionResult)
    → er.paid < u128_mod
    → (call_gas : ℕ) × (call_gas_limit base_fee validation_gas (result_of er) ≡ some call_gas)
      × CallGas base_fee validation_gas er call_gas
unfolding call_gas_limit
call_gas_limit-CallGas base_fee validation_gas er paid =
    let price = max base_fee 1 in
    let positive : 0 < price = omega arith in
    elim (le-or-lt er.pre_op_gas validation_gas) [
      | inr more ↦ (
        er.pre_op_gas - validation_gas,
        ground (arith, more),
        (λ h. omega (arith, h), λ h. absurd (omega (arith, h, more))),
      )
      | inl less ↦ (
        er.paid / price,
        ground (arith, less, paid),
        (
          λ h. absurd (omega (arith, h, less)),
          λ h. (div-mul-le_self er.paid price, (div-lt_iff_lt-mul positive).0 (omega arith)),
        ),
      )
    ]

-- When the amount paid is needed and does not fit a u128, the conversion panics.
call_gas_limit-panics :
    (base_fee validation_gas : ℕ) (er : Contracts.ExecutionResult)
    → er.pre_op_gas ≤ validation_gas
    → u128_mod ≤ er.paid
    → call_gas_limit base_fee validation_gas (result_of er) ≡ none
unfolding call_gas_limit
call_gas_limit-panics base_fee validation_gas er less paid = ground (arith, less, paid)

module _ (fl : Float) (env : Hasher) (abi : Abi) (hex : HexDecoder) (p : AlloyEntryPointProvider)
    (api : EthApi fl) (user_op : UserOperationOptionalGas) (entry_point : ℕ) where
  -- The operation that is simulated, with the gas limits for an estimate.
  abbrev pub full_op : UserOperation
  full_op = into_user_operation env user_op entry_point api.chain_spec.id 1000000 10000000

  -- What the node answers to the simulation of the validation, and to that of the execution.
  abbrev pub validated : Result (List ℕ) (List ℕ)
  validated =
      p.call (record { to = p.entry_point; input = abi.encode_simulate_validation (pack full_op) })

  abbrev pub ran : Result (List ℕ) (List ℕ)
  ran =
      p.call
        (record { to = p.entry_point; input = abi.encode_simulate_handle_op (pack full_op) 0 [] })

  abbrev pub method : Option (Result RpcError GasEstimate)
  method =
      estimate_user_operation_gas fl env api (some (entry_point_provider abi hex p)) user_op
        entry_point

  -- For the entry point of the chain: when the node refuses the simulated validation with a text
  -- that reports, in hexadecimal after its first `0x` and with no further digit behind, at least
  -- four bytes of revert data, the method answers `validation_reverted` with the revert that these
  -- data encode, where decoding them does not panic.
  pub estimate_user_operation_gas-reverted :
      is_entry_point api.chain_spec entry_point ≡ true
      → (before bytes after : List ℕ) (reverted : ValidationRevert)
      → validated ≡ err (before ++ (b'0' ∷ b'x' ∷ (to_hex bytes ++ after)))
      → find_0x before ≡ none
      → All (λ b. b < 256) bytes
      → 4 ≤ length bytes
      → EndsDigits after
      → decode_validation_revert abi bytes ≡ some reverted
      → method ≡ some (err (validation_reverted reverted))
  unfolding estimate_user_operation_gas simulate entry_point_provider simulate_validation
      simulation_error
  estimate_user_operation_gas-reverted known before bytes after reverted refused absent small long
        ends decoded =
      let found = extract_revert_data-append hex before bytes after absent small long ends in
      rw
        (
          known, estimate_user_operation_gas, simulate, simulate_validation, refused,
          simulation_error, found, decoded,
        )
        refl

  -- For the entry point of the chain: when the node answers both simulations with bytes that decode
  -- to results whose numbers fit their types, then: if the amount paid fits a u128, the method
  -- answers an estimate. Its verification gas is the gas of the validation before the execution, as
  -- is that of the paymaster, which is there exactly when the operation has a paymaster. Its call gas
  -- is by how much the second simulation needed more before the execution, or, where it did not, the
  -- amount paid divided by the base fee of the API, or by 1 where that is 0: never the gas that the
  -- execution used. If the amount does not fit and is needed, the method panics.
  pub estimate_user_operation_gas-paid :
      is_entry_point api.chain_spec entry_point ≡ true
      → (output result : List ℕ) (vr : ValidationResult) (er : Contracts.ExecutionResult)
      → (out : ValidationOutput) → validated ≡ ok output
      → abi.decode_validation_result output ≡ some vr
      → validation_output vr ≡ some out
      → ran ≡ ok result
      → abi.decode_execution_result result ≡ some er
      → er.pre_op_gas < u128_mod
      → (er.paid < u128_mod
          → (g : GasEstimate) × (method ≡ some (ok g))
            × (g.verification_gas_limit ≡ out.pre_op_gas)
            × (full_op.paymaster ≡ none → g.paymaster_verification_gas_limit ≡ none)
            × ((paymaster : ℕ)
                → full_op.paymaster ≡ some paymaster
                → g.paymaster_verification_gas_limit ≡ some out.pre_op_gas)
            × CallGas api.base_fee out.pre_op_gas er g.call_gas_limit)
        × (er.pre_op_gas ≤ out.pre_op_gas → u128_mod ≤ er.paid → method ≡ none)
  unfolding estimate_user_operation_gas simulate executed entry_point_provider simulate_validation
      simulate_handle_op estimate
  estimate_user_operation_gas-paid known output result vr er out v dv fit r dr small =
      let run = execution_result_fits er small in
      (
        λ paid.
            let (call_gas, gas, is) = call_gas_limit-CallGas api.base_fee out.pre_op_gas er paid in
            (
              estimate env api.chain_spec full_op out.pre_op_gas call_gas,
              rw
                  (
                    known, estimate_user_operation_gas, simulate, simulate_validation, v, dv, fit,
                    simulate_handle_op, r, dr, run, executed, gas,
                  )
                  refl,
              refl,
              λ absent. ground (arith, absent),
              λ paymaster present. ground (arith, present),
              is,
            ),
        λ less paid.
            let panics = call_gas_limit-panics api.base_fee out.pre_op_gas er less paid in
            rw
              (
                known, estimate_user_operation_gas, simulate, simulate_validation, v, dv, fit,
                simulate_handle_op, r, dr, run, executed, panics,
              )
              refl,
      )
