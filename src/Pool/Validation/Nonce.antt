-- ===== src/Pool/Validation/Nonce.antt =====
-- The static and the nonce checks (crates/pool/src/validation.rs, `validate_static_fields`,
-- `validate_nonce`).
use bunzo.Prelude.{
  ◌+◌, ◌%◌, ◌≤◌, ◌≡◌, ◌≢◌, ◌↔◌, ◌⊎◌, inl, inr, List, none, some, arith, length, In, Option-cases,
}
use bunzo.Prelude.Words.{u64_mod}
use bunzo.Prelude.Result.{ok}
use bunzo.Types.Chain.{ChainSpec}
use bunzo.Types.UserOperation.Packing.{UserOperation}
use bunzo.Types.UserOperation.Nonce.{nonce_key, nonce_sequence}
use bunzo.Types.UserOperation as Op
use bunzo.Pool.Entry.{PoolEntry}
use bunzo.Pool.Store.{OperationPool, get_by_id, max_nonce_sequence}
use bunzo.Pool.Represents.{Represents}
use bunzo.Pool.Sequence.{Matches, max_nonce_sequence_max}
use bunzo.Pool.Validation.{validate_static_fields, validate_nonce, check_sequence}

-- The static checks accept exactly the operations that have a sender, a verification gas limit, a
-- maximum fee and pre-verification gas that are not zero, a priority fee of at most the maximum
-- fee, and call data within the transaction size limit.
pub validate_static_fields_ok :
    (c : ChainSpec) (uo : UserOperation)
    → (validate_static_fields c uo ≡ ok tt) ↔ (
        (uo.sender ≢ 0)
        × (uo.verification_gas_limit ≢ 0)
        × (uo.max_fee_per_gas ≢ 0)
        × (uo.max_priority_fee_per_gas ≤ uo.max_fee_per_gas)
        × (length uo.call_data ≤ c.max_transaction_size_bytes)
        × (uo.pre_verification_gas ≢ 0))
unfolding validate_static_fields
validate_static_fields_ok c uo = (λ h. ground arith, λ h. ground arith)

module _ (p : OperationPool) (l : List PoolEntry) (r : Represents p l) where
  -- An operation that replaces nothing passes the nonce check only if the pool holds no operation
  -- of its sender under its nonce key, or if it comes directly after the highest such operation,
  -- its sequence being that one's plus one (in 64 bits).
  pub validate_nonce_next :
      (uo : UserOperation)
      → get_by_id p (Op.id uo) ≡ none
      → validate_nonce (some p) uo ≡ ok tt
      → let id = Op.id uo in
        let key = nonce_key id in
        ((e : PoolEntry) → In e l → ¬ Matches id.sender key e)
        ⊎ ((e : PoolEntry) × In e l
            × Matches id.sender key e
            × (nonce_sequence id ≡ (nonce_sequence e.id + 1) % u64_mod)
            × ((x : PoolEntry)
                → In x l
                → Matches id.sender key x
                → nonce_sequence x.id ≤ nonce_sequence e.id))
  unfolding validate_nonce check_sequence
  validate_nonce_next uo fresh accepted =
      let id = Op.id uo in
      let (empty, top) = max_nonce_sequence_max p l r id.sender (nonce_key id) in
      elim (Option-cases (max_nonce_sequence p id.sender (nonce_key id))) [
        | inl missing ↦ inl (empty missing)
        | inr (m, found) ↦
            let ((e, member, fits, same), above) = top m found in
            inr (e, member, fits, ground arith, λ x i h. ground (arith, above x i h))
      ]
