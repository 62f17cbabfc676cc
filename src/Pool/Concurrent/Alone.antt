-- ===== src/Pool/Concurrent/Alone.antt =====
-- A thread that is not interrupted does what `add` does (crates/pool/src/pool.rs).
use bunzo.Prelude.{
  ℕ, zero, suc, ◌≡◌, false, refl, ap, sym, ◌∙◌, leb, ltb, Bool-cases, Option-cases, inl, inr,
  ℕ_discrete, unwrap_or,
}
use bunzo.Prelude.Result.{Result, ok, err}
use bunzo.Prelude.Maps.{get, contains_key}
use bunzo.Types.Error.{PoolError, already_known, replacement_underpriced, pool_full, sender_full}
use bunzo.Types.UserOperation.Packing.{UserOperation, Hasher}
use bunzo.Types.UserOperation as Op
use bunzo.Pool.Entry.{PoolEntry, id_discrete}
use bunzo.Pool.Store.{OperationPool, size, min_bump, remove_inner, store, admit, add}
use bunzo.Pool.Concurrent.{
  Pc, check_hash, lookup_id, check_quota, check_size, take_sequence, remove_hash, returned, advance,
  alone,
}
use bunzo.Pool.Concurrent.Branches.{
  no_quota, some_quota, no_room, some_room, admit_no_quota, admit_no_room, admit_room, known,
  unknown, no_old, underpriced, pays_bump, add_known, add_new, add_underpriced, add_replaces,
}

module _ (env : Hasher) (uo : UserOperation) (base_fee : ℕ) where
  alone-returned :
      (n : ℕ) (p : OperationPool) (r : Result PoolError ℕ)
      → alone env uo base_fee n p (returned r) ≡ (p, returned r)
  unfolding alone advance
  alone-returned zero p r = refl
  alone-returned (suc n) p r = alone-returned n p r

  -- The steps after the checks.
  pub alone-take_sequence :
      (n : ℕ) (p : OperationPool)
      → alone env uo base_fee (suc (suc (suc (suc (suc n))))) p take_sequence
        ≡ (store env p uo base_fee, returned (ok (Op.hash env uo)))
  unfolding alone advance store
  alone-take_sequence n p = alone-returned n (store env p uo base_fee) (ok (Op.hash env uo))

  pub alone_one_more :
      (n : ℕ) (p q : OperationPool) (pc next : Pc)
      → advance env uo base_fee p pc ≡ (q, next)
      → alone env uo base_fee (suc n) p pc ≡ alone env uo base_fee n q next
  unfolding alone
  alone_one_more n p q pc next e =
      ap (λ (x : OperationPool × Pc). alone env uo base_fee n x.0 x.1) e

  -- A step after which the thread has returned.
  alone_last :
      (n : ℕ) (p q : OperationPool) (pc : Pc) (r : Result PoolError ℕ)
      → advance env uo base_fee p pc ≡ (q, returned r)
      → alone env uo base_fee (suc n) p pc ≡ (q, returned r)
  alone_last n p q pc r e = alone_one_more n p q pc (returned r) e ∙ alone-returned n q r

  -- The outcome of a call, as a pool and the place where the thread stands.
  abbrev outcome : OperationPool × Result PoolError ℕ → OperationPool × Pc
  outcome (p, r) = (p, returned r)

  alone-check_size :
      (n : ℕ) (p : OperationPool)
      → leb p.config.max_ops_per_sender
          (unwrap_or (get ℕ_discrete (Op.id uo).sender p.sender_count) 0)
        ≡ false
      → alone env uo base_fee (suc (suc (suc (suc (suc (suc n)))))) p check_size
        ≡ outcome (admit env p uo base_fee)
  alone-check_size n p quota = elim (Bool-cases (leb p.config.max_size (size p))) [
    | inl full ↦
        alone_last (suc (suc (suc (suc (suc n))))) p p check_size
          (err (pool_full p.config.max_size)) (no_room env uo base_fee p full)
        ∙ ap outcome (sym (admit_no_room env uo base_fee p quota full))
    | inr room ↦
        alone_one_more (suc (suc (suc (suc (suc n))))) p p check_size take_sequence
          (some_room env uo base_fee p room)
        ∙ alone-take_sequence n p
        ∙ ap outcome (sym (admit_room env uo base_fee p quota room))
  ]

  alone-check_quota :
      (n : ℕ) (p : OperationPool)
      → alone env uo base_fee (suc (suc (suc (suc (suc (suc (suc n))))))) p check_quota
        ≡ outcome (admit env p uo base_fee)
  alone-check_quota n p =
      let sender = (Op.id uo).sender in
      let count = unwrap_or (get ℕ_discrete sender p.sender_count) 0 in
      let left = suc (suc (suc (suc (suc (suc n))))) in
      elim (Bool-cases (leb p.config.max_ops_per_sender count)) [
        | inl full ↦
            alone_last left p p check_quota
              (err (sender_full sender count p.config.max_ops_per_sender))
              (no_quota env uo base_fee p full)
            ∙ ap outcome (sym (admit_no_quota env uo base_fee p full))
        | inr quota ↦
            alone_one_more left p p check_quota check_size (some_quota env uo base_fee p quota)
            ∙ alone-check_size n p quota
      ]

  alone-remove_hash :
      (n : ℕ) (p : OperationPool) (old : PoolEntry)
      → alone env uo base_fee (suc (suc (suc (suc n)))) p (remove_hash old)
        ≡ alone env uo base_fee n (remove_inner p old) check_quota
  unfolding alone advance remove_inner
  alone-remove_hash n p old = refl

  alone-lookup_id :
      (p : OperationPool)
      → contains_key ℕ_discrete (Op.hash env uo) p.by_hash ≡ false
      → alone env uo base_fee 12 p lookup_id ≡ outcome (add env p uo base_fee)
  alone-lookup_id p fresh = elim (Option-cases (get id_discrete (Op.id uo) p.by_id)) [
    | inl absent ↦
        alone_one_more 11 p p lookup_id check_quota (no_old env uo base_fee p absent)
        ∙ alone-check_quota 4 p
        ∙ ap outcome (sym (add_new env uo base_fee p fresh absent))
    | inr (old, present) ↦
        elim (Bool-cases (ltb uo.max_fee_per_gas (min_bump p.config old.uo.max_fee_per_gas))) [
          | inl low ↦
              alone_last 11 p p lookup_id
                (err (replacement_underpriced old.uo.max_fee_per_gas uo.max_fee_per_gas))
                (underpriced env uo base_fee p old present low)
              ∙ ap outcome (sym (add_underpriced env uo base_fee p old fresh present low))
          | inr high ↦
              alone_one_more 11 p p lookup_id (remove_hash old)
                (pays_bump env uo base_fee p old present high)
              ∙ alone-remove_hash 7 p old
              ∙ alone-check_quota 0 (remove_inner p old)
              ∙ ap outcome (sym (add_replaces env uo base_fee p old fresh present high))
        ]
  ]

  -- A thread that takes all its steps without interruption, at most thirteen, changes the pool as
  -- `add` does, and returns what `add` returns.
  pub alone-add :
      (p : OperationPool)
      → let (p', result) = add env p uo base_fee in
        alone env uo base_fee 13 p check_hash ≡ (p', returned result)
  alone-add p = elim (Bool-cases (contains_key ℕ_discrete (Op.hash env uo) p.by_hash)) [
    | inl same ↦
        alone_last 12 p p check_hash (err (already_known (Op.hash env uo)))
          (known env uo base_fee p same)
        ∙ ap outcome (sym (add_known env uo base_fee p same))
    | inr fresh ↦
        alone_one_more 12 p p check_hash lookup_id (unknown env uo base_fee p fresh)
        ∙ alone-lookup_id p fresh
  ]
