-- ===== src/Pool/Validation/Effect.antt =====
-- What an accepted operation has passed and what is counted for it, without the words of the code
-- (crates/pool/src/validation.rs, `validate_sync`).
use bunzo.Prelude.{
  ℕ, ◌+◌, ◌%◌, ◌≤◌, ◌<◌, ◌==◌, ◌≡◌, ◌≢◌, refl, ap, ◌∙◌, ◌⊎◌, inl, inr, List, [], ◌∷◌, Option, none,
  some, arith, length, map, In, All, Option-cases, if◌then◌else◌,
}
use bunzo.Prelude.Maps.{get}
use bunzo.Prelude.Words.{u64_mod, u128_mod}
use bunzo.Prelude.Result.{ok, err}
use bunzo.Types.Chain.{ChainSpec}
use bunzo.Types.Entity.{Entity}
use bunzo.Types.Error.{ValidationError}
use bunzo.Types.Gas.{covers}
use bunzo.Types.UserOperation.Packing.{UserOperation, UserOperationId}
use bunzo.Types.UserOperation.Nonce.{nonce_key, nonce_sequence}
use bunzo.Types.UserOperation as Op
use bunzo.Pool.Entry.{PoolEntry}
use bunzo.Pool.Contents.{id_index, find_id, id-find_id}
use bunzo.Pool.Store.{OperationPool, get_by_id}
use bunzo.Pool.Represents.{Represents}
use bunzo.Pool.Sequence.{Matches}
use bunzo.Pool.Reputation.{
  Float, ReputationEntry, ReputationManager, in_good_standing, status, check_entity, record_seen,
}
use bunzo.Pool.Reputation.Standing.{
  occurrences, entry_of, seen_all, seen_all_config, entry_of-seen_all,
}
use bunzo.Pool.Validation.{
  Validator, validate_static_fields, validate_gas_price, validate_nonce, validate_pure, record_all,
  validate_sync,
}
use bunzo.Pool.Validation.Nonce.{validate_static_fields_ok, validate_nonce_next}
use bunzo.Pool.Validation.Seen.{validate_sync_parts}

-- The fields are there, and within their limits.
abbrev pub HasFields : ChainSpec → UserOperation → Type 0
HasFields c uo =
    (uo.sender ≢ 0)
    × (uo.verification_gas_limit ≢ 0)
    × (uo.max_fee_per_gas ≢ 0)
    × (uo.max_priority_fee_per_gas ≤ uo.max_fee_per_gas)
    × (length uo.call_data ≤ c.max_transaction_size_bytes)
    × (uo.pre_verification_gas ≢ 0)

-- The fees pay the base fee and the minimum tip; the sum is one of 128 bits.
abbrev pub Pays : ChainSpec → UserOperation → ℕ → Type 0
Pays c uo base_fee =
    ((base_fee + c.min_max_priority_fee_per_gas) % u128_mod ≤ uo.max_fee_per_gas)
    × (c.min_max_priority_fee_per_gas ≤ uo.max_priority_fee_per_gas)

-- The operation replaces one of the list, or is the first of its sender under its nonce key, or
-- comes directly after the highest of these.
abbrev pub Follows : List PoolEntry → UserOperation → Type 0
Follows l uo =
    let id = Op.id uo in
    let key = nonce_key id in
    ((e : PoolEntry) × In e l × (e.id ≡ id))
    ⊎ ((e : PoolEntry) → In e l → ¬ Matches id.sender key e)
    ⊎ ((e : PoolEntry) × In e l
        × Matches id.sender key e
        × (nonce_sequence id ≡ (nonce_sequence e.id + 1) % u64_mod)
        × ((x : PoolEntry)
            → In x l
            → Matches id.sender key x
            → nonce_sequence x.id ≤ nonce_sequence e.id))

abbrev named_as : Option ℕ → ℕ → ℕ
named_as none a = 0
named_as (some x) a = if x == a then 1 else 0

-- How often the operation names the address, as its sender, factory or paymaster.
abbrev pub times_named : UserOperation → ℕ → ℕ
times_named uo a =
    (if uo.sender == a then 1 else 0) + (named_as uo.factory a + named_as uo.paymaster a)

abbrev addresses : List Entity → List ℕ
addresses entities = map (λ entity. entity.address) entities

occurrences-entities :
    (uo : UserOperation) (a : ℕ) → occurrences a (addresses (Op.entities uo)) ≡ times_named uo a
unfolding Op.entities
occurrences-entities uo a = elim (Option-cases uo.factory) [
  | inl f ↦ elim (Option-cases uo.paymaster) [
    | inl p ↦ ground (arith, f, p)
    | inr (y, p) ↦ ground (arith, f, p)
  ]
  | inr (x, f) ↦ elim (Option-cases uo.paymaster) [
    | inl p ↦ ground (arith, f, p)
    | inr (y, p) ↦ ground (arith, f, p)
  ]
]

find_id-In :
    (i : UserOperationId) (l : List PoolEntry) (e : PoolEntry) → find_id i l ≡ some e → In e l
unfolding id_index get
find_id-In i [] e f = absurd (ground arith)
find_id-In i (x ∷ l) e f = ground (arith, find_id-In i l e)

-- An operation that passes the checks that change nothing.
validate_pure-passed :
    (fl : Float) (p : OperationPool) (l : List PoolEntry) (c : ChainSpec) (uo : UserOperation)
    (base_fee : ℕ)
    → Represents p l
    → validate_pure fl c (some p) uo base_fee ≡ ok tt
    → HasFields c uo × Pays c uo base_fee × Follows l uo
unfolding validate_pure validate_gas_price covers Op.gas_fees get_by_id
validate_pure-passed fl p l c uo base_fee r passed =
    let fields : validate_static_fields c uo ≡ ok tt = ground arith in
    let priced : validate_gas_price c uo base_fee ≡ ok tt = ground arith in
    let follows : validate_nonce (some p) uo ≡ ok tt = ground arith in
    (
      (validate_static_fields_ok c uo).0 fields,
      (ground (arith, priced), ground (arith, priced)),
      elim (Option-cases (get_by_id p (Op.id uo))) [
        | inr (e, known) ↦
            let found : find_id (Op.id uo) l ≡ some e =
              ground (arith, known, r.by_id_is, r.by_hash_is) in
            inl (e, find_id-In (Op.id uo) l e found, id-find_id (Op.id uo) l e found)
        | inl fresh ↦ inr (validate_nonce_next p l r uo fresh follows)
      ],
    )

module _ (fl : Float) where
  record_all-seen_all :
      (m : ReputationManager fl) (entities : List Entity)
      → record_all fl m entities ≡ seen_all fl m (addresses entities)
  unfolding record_all seen_all
  record_all-seen_all m [] = refl
  record_all-seen_all m (entity ∷ entities) =
      record_all-seen_all (record_seen fl m entity.address) entities

  standing :
      (m : ReputationManager fl) (entities : List Entity)
      → All (λ entity. check_entity fl m entity ≡ ok tt) entities
      → All (λ entity. status fl m entity.address ≡ in_good_standing) entities
  unfolding check_entity
  standing m [] h = tt
  standing m (entity ∷ entities) h = (ground (arith, h.0), standing m entities h.1)

  -- A rejected operation leaves the validator as it was. An accepted one, over a consistent pool,
  -- has all its fields within the limits, pays the base fee and the minimum tip, and either replaces
  -- an operation of the pool or comes directly after the highest one of its sender under its nonce
  -- key, if there is any; every entity that it names was in good standing before; and each address
  -- whose counter does not overflow has been counted as seen as often as the operation names it as
  -- its sender, factory or paymaster, while its included operations, the thresholds and the chain
  -- parameters are as before.
  pub validate_sync_effect :
      (v : Validator fl) (p : OperationPool) (l : List PoolEntry) (uo : UserOperation)
      (base_fee a : ℕ)
      → Represents p l
      → (entry_of fl v.reputation a).ops_seen + times_named uo a < u64_mod
      → let (v', result) = validate_sync fl v (some p) uo base_fee in
        ((e : ValidationError) → result ≡ err e → v' ≡ v)
        × (result ≡ ok tt
            → HasFields v.chain_spec uo
              × Pays v.chain_spec uo base_fee
              × Follows l uo
              × All
                  (λ entity. status fl v.reputation entity.address ≡ in_good_standing)
                  (Op.entities uo)
              × (v'.chain_spec ≡ v.chain_spec)
              × (v'.reputation.config ≡ v.reputation.config)
              × ((entry_of fl v'.reputation a).ops_seen
                  ≡ (entry_of fl v.reputation a).ops_seen + times_named uo a)
              × ((entry_of fl v'.reputation a).ops_included
                  ≡ (entry_of fl v.reputation a).ops_included))
  validate_sync_effect v p l uo base_fee a r small =
      let (kept, accepted) = validate_sync_parts fl v (some p) uo base_fee in
      let named = addresses (Op.entities uo) in
      let times = occurrences-entities uo a in
      let (seen, included) =
        entry_of-seen_all fl v.reputation named a (omega (arith, small, times)) in
      (
        kept,
        λ passed.
            let (pure, good, is) = accepted passed in
            let (fields, pays, follows) =
              validate_pure-passed fl p l v.chain_spec uo base_fee r pure in
            let counted =
              ap (λ (x : Validator fl). x.reputation) is
              ∙ record_all-seen_all v.reputation (Op.entities uo) in
            let entry = ap (λ m. entry_of fl m a) counted in
            (
              fields,
              pays,
              follows,
              standing v.reputation (Op.entities uo) good,
              ap (λ (x : Validator fl). x.chain_spec) is,
              ap (λ (m : ReputationManager fl). m.config) counted
                  ∙ seen_all_config fl v.reputation named,
              omega (arith, ap (λ (x : ReputationEntry). x.ops_seen) entry, seen, times),
              ap (λ (x : ReputationEntry). x.ops_included) entry ∙ included,
            ),
      )
