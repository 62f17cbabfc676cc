-- ===== src/Builder/Tracker/Fees.antt =====
-- The fees of a replacement transaction (crates/builder/src/tracker.rs, `escalated_fees`).
use bunzo.Prelude.{ℕ, ◌+◌, ◌*◌, ◌/◌, ◌%◌, ◌^◌, ◌≤◌, ◌<◌, ◌≡◌, inl, inr, some, arith}
use bunzo.Prelude.Words.{u128_mod}
use bunzo.Prelude.Result.{Result, Result-cases}
use native.Mathlib.Nat.{mod-eq_of_lt}
use bunzo.Provider.Traits.{ProviderError}
use bunzo.Builder.Tracker.{
  TransactionTracker, PendingTransaction, bumped, escalated_fees, escalated_fees_network,
}

-- Without overflow the bumped fee is the fee plus its share of the bump, rounded down.
pub bumped_lem :
    (fee bps : ℕ)
    → bps < 2 ^ 32
    → fee * (10000 + bps) < u128_mod
    → bumped fee bps ≡ fee + fee * bps / 10000
unfolding bumped
bumped_lem fee bps small fits =
    let same : (10000 + bps) % u128_mod ≡ 10000 + bps = omega arith in
    rw (same, mod-eq_of_lt fits) (omega arith)

-- A replacement never lowers a fee and meets the bump that nodes ask of a replacement: whenever
-- `escalated_fees` answers, by either strategy, both fees are at least the pending ones raised by
-- `fee_bump_bps`, if those raised fees fit a u128.
pub escalated_fees_bump :
    (get_base_fee get_priority_fee : Result ProviderError ℕ) (t : TransactionTracker)
    (p : PendingTransaction) (max_fee priority_fee : ℕ)
    → t.pending ≡ some p
    → escalated_fees get_base_fee get_priority_fee t ≡ some (max_fee, priority_fee)
    → t.escalation_config.fee_bump_bps < 2 ^ 32
    → p.max_fee_per_gas * (10000 + t.escalation_config.fee_bump_bps) < u128_mod
    → p.max_priority_fee_per_gas * (10000 + t.escalation_config.fee_bump_bps) < u128_mod
    → let bps = t.escalation_config.fee_bump_bps in
      (p.max_fee_per_gas + p.max_fee_per_gas * bps / 10000 ≤ max_fee)
      × (p.max_priority_fee_per_gas + p.max_priority_fee_per_gas * bps / 10000 ≤ priority_fee)
      × (p.escalation_count < t.escalation_config.max_attempts)
unfolding escalated_fees escalated_fees_network
escalated_fees_bump get_base_fee get_priority_fee t p max_fee priority_fee e f small fits fits' =
    let fee_lem = bumped_lem p.max_fee_per_gas t.escalation_config.fee_bump_bps small fits in
    let priority_lem =
      bumped_lem p.max_priority_fee_per_gas t.escalation_config.fee_bump_bps small fits' in
    elim (Result-cases get_base_fee) [
      | inr (x, bad) ↦ ground (arith, fee_lem, priority_lem)
      | inl (base, good) ↦ elim (Result-cases get_priority_fee) [
        | inr (x, bad) ↦ ground (arith, fee_lem, priority_lem)
        | inl (priority, good') ↦ ground (arith, fee_lem, priority_lem)
      ]
    ]
