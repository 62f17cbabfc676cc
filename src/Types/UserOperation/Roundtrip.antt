-- ===== src/Types/UserOperation/Roundtrip.antt =====
-- Packing for the chain and unpacking again (crates/types/src/user_operation/v0_7.rs). The bundler
-- relies on it when it removes the mined operations of a bundle from the pool.
use bunzo.Prelude.{ℕ, ◌^◌, ◌<◌, ◌≡◌, List, [], ◌++◌, Option, none, some, arith, length-append}
use bunzo.Types.UserOperation.Bytes.{to_be, length-to_be, of_be-to_be, take-append, drop-append}
use bunzo.Types.UserOperation.Packing.{
  UserOperation, pack_u128_pair, unpack_u128_pair, pack_init_code, unpack_init_code, pack_paymaster,
  unpack_paymaster, pack, unpack_fields, saturate_u128,
}

-- Two amounts of 16 bytes survive a 32-byte word.
pub unpack_u128_pair-pack_u128_pair :
    (high low : ℕ)
    → high < 2 ^ 128
    → low < 2 ^ 128
    → unpack_u128_pair (pack_u128_pair high low) ≡ (high, low)
unfolding unpack_u128_pair pack_u128_pair
unpack_u128_pair-pack_u128_pair high low h l = ground (
  arith,
  take-append 16 (to_be 16 high) (to_be 16 low) (length-to_be 16 high),
  drop-append 16 (to_be 16 high) (to_be 16 low) (length-to_be 16 high),
  of_be-to_be 16 high,
  of_be-to_be 16 low,
)

-- What of an optional field with data the packed form keeps: nothing, if the address is absent.
abbrev pub IsInitCode : Option ℕ → List ℕ → Type 0
IsInitCode none data_bytes = data_bytes ≡ []
IsInitCode (some a) data_bytes = a < 2 ^ 160

pub unpack_init_code-pack_init_code :
    (a : Option ℕ) (d : List ℕ) → IsInitCode a d → unpack_init_code (pack_init_code a d) ≡ (a, d)
unfolding unpack_init_code pack_init_code
unpack_init_code-pack_init_code none d h = ground arith
unpack_init_code-pack_init_code (some a) d h = ground (
  arith,
  length-append (to_be 20 a) d,
  length-to_be 20 a,
  take-append 20 (to_be 20 a) d (length-to_be 20 a),
  drop-append 20 (to_be 20 a) d (length-to_be 20 a),
  of_be-to_be 20 a,
)

abbrev pub IsPaymaster : Option ℕ → ℕ → ℕ → List ℕ → Type 0
IsPaymaster none v p d = (v ≡ 0) × (p ≡ 0) × (d ≡ [])
IsPaymaster (some a) v p d = (a < 2 ^ 160) × (v < 2 ^ 128) × (p < 2 ^ 128)

pub unpack_paymaster-pack_paymaster :
    (a : Option ℕ) (v p : ℕ) (d : List ℕ)
    → IsPaymaster a v p d
    → unpack_paymaster (pack_paymaster a v p d) ≡ (a, v, p, d)
unfolding unpack_paymaster pack_paymaster
unpack_paymaster-pack_paymaster none v p d h = ground arith
unpack_paymaster-pack_paymaster (some a) v p d h =
    let pd = to_be 16 p ++ d in
    let vpd = to_be 16 v ++ pd in
    ground (
      arith,
      length-append (to_be 20 a) vpd,
      length-append (to_be 16 v) pd,
      length-append (to_be 16 p) d,
      length-to_be 20 a,
      length-to_be 16 v,
      length-to_be 16 p,
      take-append 20 (to_be 20 a) vpd (length-to_be 20 a),
      drop-append 20 (to_be 20 a) vpd (length-to_be 20 a),
      take-append 16 (to_be 16 v) pd (length-to_be 16 v),
      drop-append 16 (to_be 16 v) pd (length-to_be 16 v),
      take-append 16 (to_be 16 p) d (length-to_be 16 p),
      drop-append 16 (to_be 16 p) d (length-to_be 16 p),
      of_be-to_be 20 a,
      of_be-to_be 16 v,
      of_be-to_be 16 p,
    )

-- Every field fits its type, and the data of an absent factory or paymaster is empty.
pub record IsWellFormed (uo : UserOperation) : Type 0 where
  pub verification_fits : uo.verification_gas_limit < 2 ^ 128
  pub call_fits : uo.call_gas_limit < 2 ^ 128
  pub pre_verification_fits : uo.pre_verification_gas < 2 ^ 128
  pub max_fee_fits : uo.max_fee_per_gas < 2 ^ 128
  pub priority_fee_fits : uo.max_priority_fee_per_gas < 2 ^ 128
  pub init_code : IsInitCode uo.factory uo.factory_data
  pub paymaster_and_data :
      IsPaymaster uo.paymaster uo.paymaster_verification_gas_limit uo.paymaster_post_op_gas_limit
        uo.paymaster_data

pub unpack_fields-pack :
    (uo : UserOperation)
    → IsWellFormed uo
    → unpack_fields (pack uo) uo.entry_point uo.chain_id ≡ record uo { hash = none }
unfolding unpack_fields pack saturate_u128
unpack_fields-pack uo w = ground (
  arith,
  unpack_u128_pair-pack_u128_pair uo.verification_gas_limit uo.call_gas_limit,
  unpack_u128_pair-pack_u128_pair uo.max_priority_fee_per_gas uo.max_fee_per_gas,
  unpack_init_code-pack_init_code uo.factory uo.factory_data w.init_code,
  unpack_paymaster-pack_paymaster uo.paymaster uo.paymaster_verification_gas_limit
      uo.paymaster_post_op_gas_limit uo.paymaster_data w.paymaster_and_data,
)
