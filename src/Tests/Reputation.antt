-- ===== src/Tests/Reputation.antt =====
-- The theorems on the reputation and on the validation, at the default thresholds.
use bunzo.Prelude.{refl, ◌≡◌, [], ◌∷◌, some, arith, All}
use bunzo.Prelude.Result.{ok, err}
use bunzo.Types.Chain.{mainnet, dev}
use bunzo.Types.Error.{ValidationError}
use bunzo.Types.UserOperation as Op
use bunzo.Pool.Reputation.{ReputationConfig, ReputationManager, in_good_standing, status}
use bunzo.Pool.Reputation.Standing.{entry_of}
use bunzo.Pool.Reputation.Decay.{decays, decays_forget}
use bunzo.Pool.Validation.{Validator, validate_sync}
use bunzo.Pool.Validation.Effect.{HasFields, Pays, Follows, validate_sync_effect}
use bunzo.Tests.Data.{fractions, pool_ab, entries_ab, pool_ab-Represents, op_next}

abbrev pub config : ReputationConfig fractions
config = record { min_ops_for_throttle = 2; throttle_threshold = (1, 10); ban_threshold = (1, 100) }

abbrev pub manager : ReputationManager fractions
manager = record { entries = (7, record { ops_seen = 3; ops_included = 1 }) ∷ []; config = config }

abbrev pub validator : Validator fractions
validator = record { chain_spec = mainnet; reputation = manager }

abbrev dev_validator : Validator fractions
dev_validator = record { chain_spec = dev; reputation = manager }

decays_forget_example : (decays fractions 4 manager).entries ≡ []
decays_forget_example =
    decays_forget fractions 3 manager (omega arith) ((omega arith, omega arith), tt)

validate_sync_effect_example :
    let (v', result) = validate_sync fractions dev_validator (some pool_ab) op_next 5 in
    ((e : ValidationError) → result ≡ err e → v' ≡ dev_validator)
    × (result ≡ ok tt
        → HasFields dev op_next
          × Pays dev op_next 5
          × Follows entries_ab op_next
          × All
              (λ entity. status fractions manager entity.address ≡ in_good_standing)
              (Op.entities op_next)
          × (v'.chain_spec ≡ dev)
          × (v'.reputation.config ≡ config)
          × ((entry_of fractions v'.reputation 7).ops_seen ≡ 4)
          × ((entry_of fractions v'.reputation 7).ops_included ≡ 1))
unfolding bunzo.Prelude.Maps.get bunzo.Prelude.ℕ_discrete
validate_sync_effect_example =
    validate_sync_effect fractions dev_validator pool_ab entries_ab op_next 5 7 pool_ab-Represents
      (omega arith)

-- The operation is accepted.
accepted : (validate_sync fractions dev_validator (some pool_ab) op_next 5).1 ≡ ok tt
unfolding validate_sync bunzo.Pool.Validation.validate_static_fields
    bunzo.Pool.Validation.validate_gas_price bunzo.Types.Gas.covers Op.gas_fees
    bunzo.Pool.Validation.validate_nonce bunzo.Pool.Store.get_by_id bunzo.Prelude.Maps.get
    bunzo.Pool.Store.add bunzo.Pool.Store.new bunzo.Pool.Store.admit bunzo.Pool.Store.size
    bunzo.Pool.Store.store bunzo.Prelude.Maps.insert bunzo.Prelude.ℕ_discrete Op.hash
    bunzo.Pool.Entry.id_discrete Op.id bunzo.Pool.Entry.cmp bunzo.Pool.Entry.new_entry
    bunzo.Pool.Ordered.insert bunzo.Pool.Ordered.remove bunzo.Pool.Reputation.check_entity
    bunzo.Pool.Reputation.entry_status bunzo.Pool.Reputation.record_seen status
    bunzo.Pool.Store.decrement bunzo.Pool.Store.increment bunzo.Pool.Store.max_nonce_sequence
    bunzo.Pool.Store.max_sequence bunzo.Pool.Store.min_bump bunzo.Pool.Store.remove_inner
    bunzo.Pool.Validation.check_entities bunzo.Pool.Validation.check_sequence
    bunzo.Pool.Validation.record_all bunzo.Pool.Validation.validate_pure
    bunzo.Pool.Validation.validate_reputation bunzo.Prelude.Maps.remove
    bunzo.Types.Gas.effective_gas_price bunzo.Types.UserOperation.Bytes.to_be
    bunzo.Types.UserOperation.Nonce.nonce_key bunzo.Types.UserOperation.Nonce.nonce_sequence
    bunzo.Types.UserOperation.Packing.pack bunzo.Types.UserOperation.Packing.pack_init_code
    bunzo.Types.UserOperation.Packing.pack_paymaster
    bunzo.Types.UserOperation.Packing.pack_u128_pair Op.compute_hash Op.effective_gas_price
    Op.entities
accepted = refl
