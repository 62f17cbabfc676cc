-- ===== src/Pool/Validation.antt =====
-- Validation of an incoming operation (crates/pool/src/validation.rs). The validator owns its
-- reputation manager, which `validate_reputation` changes; the pool that it may share is read.
pub mod Nonce
pub mod Seen
pub mod Effect
pub mod Banned
use bunzo.Prelude.{
  ℕ, ◌+◌, ◌==◌, ◌≡◌, Bool, true, false, List, [], ◌∷◌, Option, none, some, ltb, if◌then◌else◌,
  length, not, is_some,
}
use bunzo.Prelude.Words.{add_u64}
use bunzo.Prelude.Result.{Result, ok, err, ◌>>=◌, ◌>>◌}
use bunzo.Types.Entity.{Entity}
use bunzo.Types.Error.{
  ValidationError, Field, Message, invalid_sender, gas_too_low, max_fee_too_low,
  priority_fee_exceeds_max_fee, call_data_too_large, other, invalid_nonce_sequence, is_throttled,
  is_banned,
}
use bunzo.Types.Chain.{ChainSpec}
use bunzo.Types.Gas.{covers}
use bunzo.Types.UserOperation.Packing.{UserOperation, UserOperationId}
use bunzo.Types.UserOperation.Nonce.{nonce_key, nonce_sequence}
use bunzo.Types.UserOperation as Op
use bunzo.Pool.Store.{OperationPool, get_by_id, max_nonce_sequence}
use bunzo.Pool.Reputation.{
  Float, ReputationManager, ReputationStatus, in_good_standing, throttled, banned, check_entity,
  record_seen,
}

unfoldable pub validate_static_fields :
    ChainSpec → UserOperation → Result ValidationError (Unit {0})
validate_static_fields c uo =
    if uo.sender == 0
    then err (invalid_sender 0)
    else if uo.verification_gas_limit == 0
    then err (gas_too_low Field.verification_gas_limit 0 1)
    else if uo.max_fee_per_gas == 0
    then err (gas_too_low Field.max_fee_per_gas 0 1)
    else if ltb uo.max_fee_per_gas uo.max_priority_fee_per_gas
    then err (priority_fee_exceeds_max_fee uo.max_priority_fee_per_gas uo.max_fee_per_gas)
    else if ltb c.max_transaction_size_bytes (length uo.call_data)
    then err (call_data_too_large (length uo.call_data) c.max_transaction_size_bytes)
    else if uo.pre_verification_gas == 0
    then err (gas_too_low Field.pre_verification_gas 0 1)
    else ok tt

unfoldable pub validate_gas_price :
    ChainSpec → UserOperation → ℕ → Result ValidationError (Unit {0})
validate_gas_price c uo base_fee =
    if not (covers (Op.gas_fees uo) base_fee c.min_max_priority_fee_per_gas)
    then err (max_fee_too_low uo.max_fee_per_gas base_fee)
    else ok tt

-- The sequence must follow the highest one of the sender under the nonce key.
unfoldable pub check_sequence : Option ℕ → UserOperationId → Result ValidationError (Unit {0})
check_sequence none id = ok tt
check_sequence (some max_seq) id =
    if nonce_sequence id == add_u64 max_seq 1
    then ok tt
    else err (
        other
          (invalid_nonce_sequence (add_u64 max_seq 1) id.sender (nonce_key id) (nonce_sequence id)))

unfoldable pub validate_nonce :
    Option OperationPool → UserOperation → Result ValidationError (Unit {0})
unfolding check_sequence
validate_nonce none uo = ok tt
validate_nonce (some pool) uo =
    let id = Op.id uo in
    if is_some (get_by_id pool id)
    then ok tt
    else check_sequence (max_nonce_sequence pool id.sender (nonce_key id)) id

module _ (fl : Float) where
  -- The first loop of `validate_reputation`: the first entity in bad standing decides. The code has
  -- `unreachable!()` for an error with good standing, which `check_entity` never returns.
  unfoldable pub check_entities :
      ReputationManager fl → List Entity → Result ValidationError (Unit {0})
  check_entities m [] = ok tt
  check_entities m (entity ∷ entities) =
      let rest = check_entities m entities in
      elim (check_entity fl m entity) [
        | ok _ ↦ rest
        | err in_good_standing ↦ rest
        | err throttled ↦ err (other (is_throttled entity))
        | err banned ↦ err (other (is_banned entity))
      ]

  -- The second loop.
  unfoldable pub record_all : ReputationManager fl → List Entity → ReputationManager fl
  record_all m [] = m
  record_all m (entity ∷ entities) = record_all (record_seen fl m entity.address) entities

  unfoldable pub validate_reputation :
      ReputationManager fl
      → UserOperation
      → ReputationManager fl × Result ValidationError (Unit {0})
  validate_reputation m uo = elim (check_entities m (Op.entities uo)) [
    | err e ↦ (m, err e)
    | ok _ ↦ (record_all m (Op.entities uo), ok tt)
  ]

  pub record Validator : Type 0 where
    pub chain_spec : ChainSpec
    pub reputation : ReputationManager fl

  -- The checks that change nothing, in the order of `validate_sync`.
  unfoldable pub validate_pure :
      ChainSpec → Option OperationPool → UserOperation → ℕ → Result ValidationError (Unit {0})
  validate_pure c pool uo base_fee = do
    validate_static_fields c uo
    validate_gas_price c uo base_fee
    validate_nonce pool uo

  unfoldable pub validate_sync :
      Validator
      → Option OperationPool
      → UserOperation
      → ℕ
      → Validator × Result ValidationError (Unit {0})
  unfolding validate_pure
  validate_sync v pool uo base_fee = elim (validate_pure v.chain_spec pool uo base_fee) [
    | err e ↦ (v, err e)
    | ok _ ↦
        let (reputation, result) = validate_reputation v.reputation uo in
        (record v { reputation = reputation }, result)
  ]
