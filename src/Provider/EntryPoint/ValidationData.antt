-- ===== src/Provider/EntryPoint/ValidationData.antt =====
-- The word that packs the result of a validation (crates/provider/src/alloy/entry_point.rs,
-- `parse_validation_data`).
use bunzo.Prelude.{ℕ, ◌+◌, ◌*◌, ◌/◌, ◌%◌, ◌^◌, ◌<◌, ◌==◌, ◌≡◌, arith}
use bunzo.Provider.EntryPoint.{parse_validation_data}

-- The layout that the comment of the code gives, from the high bits on: 160 bits for the aggregator
-- (1 for a failed signature), 48 for the end of the validity, 48 for its start.
abbrev pub pack_validation_data : (aggregator valid_until valid_after : ℕ) → ℕ
pack_validation_data aggregator valid_until valid_after =
    (aggregator * 2 ^ 48 + valid_until) * 2 ^ 48 + valid_after

-- Both times, where they fit 48 bits, are read back from a word of the documented layout. The
-- signature is reported as failed exactly when the aggregator lies in one range of 2^64 addresses,
-- which does not hold 1: a failed signature is never noticed.
pub parse-pack_validation_data :
    (aggregator valid_until valid_after : ℕ)
    → valid_until < 2 ^ 48
    → valid_after < 2 ^ 48
    → parse_validation_data (pack_validation_data aggregator valid_until valid_after)
      ≡ (aggregator / 2 ^ 64 == 1, valid_after, valid_until)
unfolding parse_validation_data
parse-pack_validation_data aggregator valid_until valid_after u a =
    let word : ℕ = pack_validation_data aggregator valid_until valid_after in
    let sig : word / 2 ^ 160 ≡ aggregator / 2 ^ 64 = omega arith in
    let until : word / 2 ^ 48 % 2 ^ 48 ≡ valid_until = omega arith in
    let after : word % 2 ^ 48 ≡ valid_after = omega arith in λ i. (sig i == 1, after i, until i)
