-- ===== src/Tests/Types.antt =====
-- The theorems on fees and on the operation.
use bunzo.Prelude.{◌≡◌, arith}
use bunzo.Types.Gas.{GasFees}
use bunzo.Types.UserOperation.Packing.{pack}
use bunzo.Types.UserOperation as Op
use bunzo.Types.UserOperation.Identity.{IsInRange, normal, unpack-pack}
use bunzo.Tests.Data.{hasher, op_a}

abbrev fees : GasFees
fees = record { max_fee_per_gas = 100; max_priority_fee_per_gas = 20 }

op_a-IsInRange : IsInRange op_a
op_a-IsInRange = record {
  verification_fits = omega arith;
  call_fits = omega arith;
  pre_verification_fits = omega arith;
  max_fee_fits = omega arith;
  priority_fee_fits = omega arith;
  factory_fits = tt;
  paymaster_fits = omega arith;
  paymaster_verification_fits = omega arith;
  paymaster_post_op_fits = omega arith;
}

unpack-pack_example :
    let back = Op.unpack hasher (pack op_a) 0 31337 in
    (back ≡ Op.with_hash hasher (normal op_a))
    × (Op.id back ≡ Op.id op_a)
    × (Op.hash hasher back ≡ Op.compute_hash hasher op_a)
unpack-pack_example = unpack-pack hasher op_a op_a-IsInRange
