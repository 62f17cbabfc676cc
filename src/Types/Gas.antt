-- ===== src/Types/Gas.antt =====
-- crates/types/src/gas.rs: EIP-1559 fees. The amounts are u128 values.
use bunzo.Prelude.{ℕ, ◌+◌, ◌/◌, ◌≤◌, ◌<◌, min, Bool, true, ◌&&◌, Option, ◌≡◌, leb, arith}
use bunzo.Prelude.Words.{add_u128, mul_u128, u128_mod}

pub record GasFees : Type 0 where
  pub max_fee_per_gas : ℕ
  pub max_priority_fee_per_gas : ℕ

unfoldable pub effective_gas_price : GasFees → ℕ → ℕ
effective_gas_price f base_fee =
    min f.max_fee_per_gas (add_u128 base_fee f.max_priority_fee_per_gas)

unfoldable pub covers : GasFees → ℕ → ℕ → Bool
covers f base_fee min_priority_fee =
    leb (add_u128 base_fee min_priority_fee) f.max_fee_per_gas
    && leb min_priority_fee f.max_priority_fee_per_gas

unfoldable pub increase_by_percent : GasFees → ℕ → GasFees
increase_by_percent f basis_points =
    let multiplier = add_u128 10000 basis_points in
    record {
      max_fee_per_gas = mul_u128 f.max_fee_per_gas multiplier / 10000;
      max_priority_fee_per_gas = mul_u128 f.max_priority_fee_per_gas multiplier / 10000;
    }

-- The result of `eth_estimateUserOperationGas`.
pub record GasEstimate : Type 0 where
  pub pre_verification_gas : ℕ
  pub call_gas_limit : ℕ
  pub verification_gas_limit : ℕ
  pub paymaster_verification_gas_limit : Option ℕ

-- An operation whose fees cover the base fee pays the whole minimum tip: whenever `covers`
-- accepts, and neither sum overflows a u128, the effective gas price is at least the base fee
-- plus the minimum priority fee, and never above the operation's own maximum fee.
pub covers-effective_gas_price :
    (f : GasFees) (base_fee tip : ℕ)
    → covers f base_fee tip ≡ true
    → base_fee + tip < u128_mod
    → base_fee + f.max_priority_fee_per_gas < u128_mod
    → (base_fee + tip ≤ effective_gas_price f base_fee)
      × (effective_gas_price f base_fee ≤ f.max_fee_per_gas)
unfolding covers effective_gas_price
covers-effective_gas_price f base_fee tip h small small' = ground arith
