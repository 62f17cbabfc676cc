-- ===== src/Pool/Validation/Banned.antt =====
-- A banned entity and the validator (crates/pool/src/validation.rs, crates/pool/src/reputation.rs):
-- the validator only counts an operation none of whose entities is banned.
use bunzo.Prelude.{
  ℕ, ◌<◌, ◌≡◌, refl, ◌≢◌, ap, ◌∙◌, inl, inr, true, List, [], ◌∷◌, Option, arith, In, All, All-In,
  ℕ_discrete, lt→ltb,
}
use bunzo.Prelude.Words.{add_u64}
use bunzo.Prelude.Maps.{get-insert}
use bunzo.Prelude.Result.{ok, err, Result-cases}
use bunzo.Types.Entity.{Entity}
use bunzo.Types.Error.{ValidationError}
use bunzo.Types.UserOperation.Packing.{UserOperation}
use bunzo.Types.UserOperation as Op
use bunzo.Pool.Store.{OperationPool}
use bunzo.Pool.Reputation.{Float, ReputationManager, banned, status, check_entity, record_seen}
use bunzo.Pool.Reputation.Standing.{entry_of, status-entry_of, never_included}
use bunzo.Pool.Validation.{Validator, record_all, validate_sync}
use bunzo.Pool.Validation.Seen.{validate_sync_parts}

module _ (fl : Float) where
  open fl use {of_u64, lt}

  -- No operation of any entity was ever counted as included.
  abbrev pub NeverIncluded : ReputationManager fl → Type 0
  NeverIncluded m = (a : ℕ) → (entry_of fl m a).ops_included ≡ 0

  included-record_seen :
      (m : ReputationManager fl) (x a : ℕ)
      → (entry_of fl (record_seen fl m x) a).ops_included ≡ (entry_of fl m a).ops_included
  unfolding record_seen
  included-record_seen m x a = ground (
    arith,
    get-insert ℕ_discrete x a
        (record (entry_of fl m x) { ops_seen = add_u64 (entry_of fl m x).ops_seen 1 }) m.entries,
  )

  record_all-NeverIncluded :
      (m : ReputationManager fl) (entities : List Entity)
      → NeverIncluded m
      → NeverIncluded (record_all fl m entities)
  unfolding record_all
  record_all-NeverIncluded m [] h = h
  record_all-NeverIncluded m (entity ∷ entities) h =
      record_all-NeverIncluded (record_seen fl m entity.address) entities
        (λ a. included-record_seen m entity.address a ∙ h a)

  record_all_config :
      (m : ReputationManager fl) (entities : List Entity)
      → (record_all fl m entities).config ≡ m.config
  unfolding record_all record_seen
  record_all_config m [] = refl
  record_all_config m (entity ∷ entities) =
      record_all_config (record_seen fl m entity.address) entities

  -- Counting other addresses does not change what an address is.
  status-record_seen :
      (m : ReputationManager fl) (x a : ℕ)
      → x ≢ a
      → status fl (record_seen fl m x) a ≡ status fl m a
  unfolding record_seen status
  status-record_seen m x a other = ground (
    arith,
    get-insert ℕ_discrete x a
        (record (entry_of fl m x) { ops_seen = add_u64 (entry_of fl m x).ops_seen 1 }) m.entries,
  )

  status-record_all :
      (m : ReputationManager fl) (entities : List Entity) (a : ℕ)
      → All (λ entity. entity.address ≢ a) entities
      → status fl (record_all fl m entities) a ≡ status fl m a
  unfolding record_all
  status-record_all m [] a h = refl
  status-record_all m (entity ∷ entities) a h =
      status-record_all (record_seen fl m entity.address) entities a h.1
      ∙ status-record_seen m entity.address a h.0

  -- An entity that passes is not a banned one.
  passed-ne :
      (m : ReputationManager fl) (a : ℕ) (entities : List Entity)
      → status fl m a ≡ banned
      → All (λ entity. check_entity fl m entity ≡ ok tt) entities
      → All (λ entity. entity.address ≢ a) entities
  unfolding check_entity
  passed-ne m a [] b h = tt
  passed-ne m a (entity ∷ entities) b h =
      (λ same. ground (arith, h.0, b, same, ap (status fl m) same), passed-ne m a entities b h.1)

  module _ (v : Validator fl) (pool : Option OperationPool) (uo : UserOperation)
      (base_fee : ℕ) where
    -- A validation leaves a banned address banned.
    pub validate_sync-banned :
        (a : ℕ)
        → status fl v.reputation a ≡ banned
        → status fl (validate_sync fl v pool uo base_fee).0.reputation a ≡ banned
    validate_sync-banned a b =
        let effect = validate_sync_parts fl v pool uo base_fee in
        elim (Result-cases (validate_sync fl v pool uo base_fee).1) [
          | inr (e, refused) ↦
              ap (λ (x : Validator fl). status fl x.reputation a) (effect.0 e refused) ∙ b
          | inl (u, passed) ↦
              let (pure, all, is) = effect.1 passed in
              ap (λ (x : Validator fl). status fl x.reputation a) is
              ∙ status-record_all v.reputation (Op.entities uo) a
                  (passed-ne v.reputation a (Op.entities uo) b all)
              ∙ b
        ]

    -- An operation that names a banned address is refused, and nothing is counted.
    pub validate_sync_refuses :
        (entity : Entity)
        → In entity (Op.entities uo)
        → status fl v.reputation entity.address ≡ banned
        → (e : ValidationError) × (validate_sync fl v pool uo base_fee ≡ (v, err e))
    validate_sync_refuses entity m b =
        let effect = validate_sync_parts fl v pool uo base_fee in
        elim (Result-cases (validate_sync fl v pool uo base_fee).1) [
          | inr (e, refused) ↦ (e, λ i. (effect.0 e refused i, refused i))
          | inl (u, passed) ↦
              let ne =
                passed-ne v.reputation entity.address (Op.entities uo) b (effect.1 passed).1 in
              absurd (
                All-In (λ (x : Entity). x.address ≢ entity.address) (Op.entities uo) entity ne m
                  refl)
        ]

    pub validate_sync-NeverIncluded :
        NeverIncluded v.reputation
        → NeverIncluded (validate_sync fl v pool uo base_fee).0.reputation
    validate_sync-NeverIncluded h =
        let effect = validate_sync_parts fl v pool uo base_fee in
        elim (Result-cases (validate_sync fl v pool uo base_fee).1) [
          | inr (e, refused) ↦ λ a.
              ap (λ (x : Validator fl). (entry_of fl x.reputation a).ops_included)
                (effect.0 e refused)
              ∙ h a
          | inl (u, passed) ↦ λ a.
              ap (λ (x : Validator fl). (entry_of fl x.reputation a).ops_included)
                (effect.1 passed).2
              ∙ record_all-NeverIncluded v.reputation (Op.entities uo) h a
        ]

    pub validate_sync_reputation_config :
        (validate_sync fl v pool uo base_fee).0.reputation.config ≡ v.reputation.config
    validate_sync_reputation_config =
        let effect = validate_sync_parts fl v pool uo base_fee in
        elim (Result-cases (validate_sync fl v pool uo base_fee).1) [
          | inr (e, refused) ↦ ap (λ (x : Validator fl). x.reputation.config) (effect.0 e refused)
          | inl (u, passed) ↦
              ap (λ (x : Validator fl). x.reputation.config) (effect.1 passed).2
              ∙ record_all_config v.reputation (Op.entities uo)
        ]

  -- Where nothing is included, an address seen often enough is banned.
  pub often_seen :
      (m : ReputationManager fl) (a : ℕ)
      → NeverIncluded m
      → lt (of_u64 0) m.config.ban_threshold ≡ true
      → m.config.min_ops_for_throttle < (entry_of fl m a).ops_seen
      → status fl m a ≡ banned
  often_seen m a never zero_low often =
      status-entry_of fl m a
      ∙ never_included fl m.config (entry_of fl m a) zero_low (never a)
      ∙ rw (lt→ltb _ _ often) refl
