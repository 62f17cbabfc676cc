-- ===== src/Pool/Validation/Seen.antt =====
-- What validation does to the reputation counters (crates/pool/src/validation.rs, `validate_sync`).
use bunzo.Prelude.{ℕ, ◌≡◌, refl, inl, inr, ◌≢◌, List, [], ◌∷◌, Option, arith, All}
use bunzo.Prelude.Result.{ok, err, Result-cases}
use bunzo.Types.Entity.{Entity}
use bunzo.Types.Error.{ValidationError}
use bunzo.Types.UserOperation.Packing.{UserOperation}
use bunzo.Types.UserOperation as Op
use bunzo.Pool.Store.{OperationPool}
use bunzo.Pool.Reputation.{Float, ReputationManager, in_good_standing, check_entity}
use bunzo.Pool.Validation.{
  Validator, check_entities, record_all, validate_reputation, validate_pure, validate_sync,
}

module _ (fl : Float) where
  check_entity-ne :
      (m : ReputationManager fl) (entity : Entity) → check_entity fl m entity ≢ err in_good_standing
  unfolding check_entity
  check_entity-ne m entity = ground arith

  pub check_entities_ok :
      (m : ReputationManager fl) (entities : List Entity)
      → check_entities fl m entities ≡ ok tt
      → All (λ entity. check_entity fl m entity ≡ ok tt) entities
  unfolding check_entities
  check_entities_ok m [] h = tt
  check_entities_ok m (entity ∷ entities) h =
      ground (arith, check_entity-ne m entity, check_entities_ok m entities)

  -- A rejected operation leaves the validator as it was. An accepted one has passed the static, gas
  -- price and nonce checks, every entity that it names was in good standing before, and each of
  -- them has been counted as seen, once for each time that it is named.
  pub validate_sync_parts :
      (v : Validator fl) (pool : Option OperationPool) (uo : UserOperation) (base_fee : ℕ)
      → let (v', result) = validate_sync fl v pool uo base_fee in
        ((e : ValidationError) → result ≡ err e → v' ≡ v)
        × (result ≡ ok tt
            → (validate_pure fl v.chain_spec pool uo base_fee ≡ ok tt)
              × All (λ entity. check_entity fl v.reputation entity ≡ ok tt) (Op.entities uo)
              × (v' ≡ record v { reputation = record_all fl v.reputation (Op.entities uo) }))
  unfolding validate_sync validate_reputation
  validate_sync_parts v pool uo base_fee =
      elim (Result-cases (validate_pure fl v.chain_spec pool uo base_fee)) [
        | inr (e, pure) ↦ rw (pure, validate_sync) (λ x h. refl, λ h. ground arith)
        | inl (a, pure) ↦ elim (Result-cases (check_entities fl v.reputation (Op.entities uo))) [
          | inr (e, bad) ↦
              rw (pure, bad, validate_sync, validate_reputation) (λ x h. refl, λ h. ground arith)
          | inl (b, good) ↦
              rw (pure, good, validate_sync, validate_reputation)
                (
                  λ x h. ground arith,
                  λ h. (refl, check_entities_ok v.reputation (Op.entities uo) (good), refl),
                )
        ]
      ]
