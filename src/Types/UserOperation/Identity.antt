-- ===== src/Types/UserOperation/Identity.antt =====
-- What packing and unpacking keep of an operation: its fields, its identifier and its hash
-- (crates/types/src/user_operation/v0_7.rs).
use bunzo.Prelude.{ℕ, ◌^◌, ◌<◌, ◌≡◌, refl, [], Option, none, some, arith}
use bunzo.Types.UserOperation.Packing.{
  UserOperation, Hasher, pack, pack_init_code, pack_paymaster, unpack_fields,
}
use bunzo.Types.UserOperation.Roundtrip.{IsWellFormed, unpack_fields-pack}
use bunzo.Types.UserOperation.{id, hash, compute_hash, with_hash, unpack}

-- An address of 20 bytes, if there is one.
abbrev IsAddress : Option ℕ → Type 0
IsAddress none = Unit
IsAddress (some a) = a < 2 ^ 160

-- Every field fits its type.
pub record IsInRange (uo : UserOperation) : Type 0 where
  pub verification_fits : uo.verification_gas_limit < 2 ^ 128
  pub call_fits : uo.call_gas_limit < 2 ^ 128
  pub pre_verification_fits : uo.pre_verification_gas < 2 ^ 128
  pub max_fee_fits : uo.max_fee_per_gas < 2 ^ 128
  pub priority_fee_fits : uo.max_priority_fee_per_gas < 2 ^ 128
  pub factory_fits : IsAddress uo.factory
  pub paymaster_fits : IsAddress uo.paymaster
  pub paymaster_verification_fits : uo.paymaster_verification_gas_limit < 2 ^ 128
  pub paymaster_post_op_fits : uo.paymaster_post_op_gas_limit < 2 ^ 128

without_factory_data : UserOperation → UserOperation
without_factory_data uo = elim uo.factory [ none ↦ record uo { factory_data = [] } | some a ↦ uo ]

-- The operation without the data that belongs to an absent factory or paymaster.
pub normal : UserOperation → UserOperation
unfolding without_factory_data
normal uo = elim uo.paymaster [
  | none ↦ record (without_factory_data uo) {
    paymaster_verification_gas_limit = 0;
    paymaster_post_op_gas_limit = 0;
    paymaster_data = [];
  }
  | some a ↦ without_factory_data uo
]

pack-normal : (uo : UserOperation) → pack (normal uo) ≡ pack uo
unfolding pack normal pack_init_code pack_paymaster
pack-normal uo = ground arith

normal-IsWellFormed : (uo : UserOperation) → IsInRange uo → IsWellFormed (normal uo)
unfolding normal
normal-IsWellFormed uo r = ground arith

normal_kept :
    (uo : UserOperation)
    → ((normal uo).entry_point ≡ uo.entry_point)
      × ((normal uo).chain_id ≡ uo.chain_id)
      × (id (normal uo) ≡ id uo)
unfolding normal id
normal_kept uo = ground arith

unpack_fields-pack-normal :
    (uo : UserOperation)
    → IsInRange uo
    → unpack_fields (pack uo) uo.entry_point uo.chain_id ≡ record (normal uo) { hash = none }
unpack_fields-pack-normal uo r = cc (
  pack-normal uo,
  (normal_kept uo).0,
  (normal_kept uo).1,
  unpack_fields-pack (normal uo) (normal-IsWellFormed uo r),
)

module _ (env : Hasher) where
  compute_hash-normal : (uo : UserOperation) → compute_hash env (normal uo) ≡ compute_hash env uo
  unfolding compute_hash
  compute_hash-normal uo = ground (arith, pack-normal uo, normal_kept uo)

  -- The cached hash has no part in the computed one.
  compute_hash_uncached :
      (uo : UserOperation) → compute_hash env (record uo { hash = none }) ≡ compute_hash env uo
  unfolding compute_hash pack
  compute_hash_uncached uo = refl

  -- For an operation whose fields fit their types, unpacking its packed form with its own entry
  -- point and chain gives the operation back, without the data of an absent factory or paymaster
  -- and with its hash computed anew; the identifier is the same, and the hash that the result
  -- reports is the one that is computed for the original.
  pub unpack-pack :
      (uo : UserOperation)
      → IsInRange uo
      → let back = unpack env (pack uo) uo.entry_point uo.chain_id in
        (back ≡ with_hash env (normal uo))
        × (id back ≡ id uo)
        × (hash env back ≡ compute_hash env uo)
  unfolding unpack with_hash hash id
  unpack-pack uo r = ground (
    arith,
    unpack_fields-pack-normal uo r,
    compute_hash_uncached (normal uo),
    compute_hash-normal uo,
    normal_kept uo,
  )
