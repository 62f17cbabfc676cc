-- ===== src/Types/UserOperation/Variant.antt =====
-- crates/types/src/user_operation/mod.rs: the versions of operations, and the entity of a kind.
use bunzo.Prelude.{ℕ, ◌≡◌, inl, inr, ◌++◌, Option, none, some, arith, Option-cases}
use bunzo.Types.Entity.{Entity, EntityType, account, paymaster, factory, aggregator, option_iter}
use bunzo.Types.UserOperation.Packing.{UserOperation, UserOperationId, Hasher}
use bunzo.Types.UserOperation as Op

pub data EntryPointVersion : Type 0 where
  v0_7 : EntryPointVersion

pub data UserOperationVariant : Type 0 where
  of_v0_7 : UserOperation → UserOperationVariant

unfoldable pub entry_point_version : UserOperationVariant → EntryPointVersion
entry_point_version (of_v0_7 uo) = v0_7

unfoldable pub hash : Hasher → UserOperationVariant → ℕ
hash env (of_v0_7 uo) = Op.hash env uo

unfoldable pub sender : UserOperationVariant → ℕ
sender (of_v0_7 uo) = uo.sender

unfoldable pub nonce : UserOperationVariant → ℕ
nonce (of_v0_7 uo) = uo.nonce

unfoldable pub id : UserOperationVariant → UserOperationId
id (of_v0_7 uo) = Op.id uo

unfoldable pub max_fee_per_gas : UserOperationVariant → ℕ
max_fee_per_gas (of_v0_7 uo) = uo.max_fee_per_gas

unfoldable pub max_priority_fee_per_gas : UserOperationVariant → ℕ
max_priority_fee_per_gas (of_v0_7 uo) = uo.max_priority_fee_per_gas

unfoldable pub entity : UserOperation → EntityType → Option Entity
entity uo account = some (record { kind = account; address = uo.sender })
entity uo factory = elim uo.factory [
  | none ↦ none
  | some a ↦ some (record { kind = factory; address = a })
]
entity uo paymaster = elim uo.paymaster [
  | none ↦ none
  | some a ↦ some (record { kind = paymaster; address = a })
]
entity uo aggregator = none

-- The list of the entities is that of the entities of each kind.
pub entities-entity :
    (uo : UserOperation)
    → Op.entities uo
      ≡ option_iter (entity uo account)
        ++ (option_iter (entity uo factory)
            ++ (option_iter (entity uo paymaster) ++ option_iter (entity uo aggregator)))
unfolding entity Op.entities
entities-entity uo = elim (Option-cases uo.factory) [
  | inl no_factory ↦ elim (Option-cases uo.paymaster) [
    | inl no_paymaster ↦ ground (arith, no_factory, no_paymaster)
    | inr (a, found) ↦ ground (arith, no_factory, found)
  ]
  | inr (f, found) ↦ elim (Option-cases uo.paymaster) [
    | inl no_paymaster ↦ ground (arith, found, no_paymaster)
    | inr (a, found') ↦ ground (arith, found, found')
  ]
]
