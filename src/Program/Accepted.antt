-- ===== src/Program/Accepted.antt =====
-- What the submission of an operation checks before the operation reaches the pool
-- (crates/rpc/src/eth.rs, crates/pool/src/validation.rs).
use bunzo.Prelude.{
  ℕ, ◌==◌, ==_iff, ◌⊎◌, ◌≡◌, refl, ap, ◌∙◌, sym, subst, true, some, arith, Bool-cases, inl, inr,
}
use bunzo.Prelude.Result.{ok, Result-cases}
use bunzo.Types.Chain.{ChainSpec, is_entry_point}
use bunzo.Types.Gas.{covers}
use bunzo.Types.UserOperation.Packing.{UserOperation, Hasher, pack}
use bunzo.Types.UserOperation as Op
use bunzo.Pool.Entry.{PoolEntry, PoolConfig, new_entry}
use bunzo.Pool.Store.{OperationPool, add}
use bunzo.Pool.Contains.{Contains, add-Contains}
use bunzo.Pool.History.{adds, step_config}
use bunzo.Pool.History
use bunzo.Pool.Reputation.{Float}
use bunzo.Pool.Validation.{
  Validator, validate_sync, validate_pure, validate_static_fields, validate_gas_price,
}
use bunzo.Rpc.Eth.{EthApi, accept, send_user_operation}

-- The operation passed the checks of its fields and of its fees at a base fee of 0, it is for the
-- entry point and the chain of the program, and its keys are its computed hash and its identifier.
pub record Accepted (env : Hasher) (c : ChainSpec) (e : PoolEntry) : Type 0 where
  pub fields : validate_static_fields c e.uo ≡ ok tt
  pub pays : covers (Op.gas_fees e.uo) 0 c.min_max_priority_fee_per_gas ≡ true
  pub for_entry_point : e.uo.entry_point ≡ c.entry_point_v0_7
  pub for_chain : e.uo.chain_id ≡ c.id
  pub hashed : e.hash ≡ Op.compute_hash env e.uo
  pub identified : e.id ≡ Op.id e.uo

module _ (fl : Float) (env : Hasher) (c : ChainSpec) where
  -- The parts of the API that no submission changes.
  pub record Configured (config : PoolConfig) (api : EthApi fl) : Type 0 where
    pub spec : api.chain_spec ≡ c
    pub validator_spec : api.validator.chain_spec ≡ c
    pub no_base_fee : api.base_fee ≡ 0
    pub pool_config : api.op_pool.config ≡ config

  pub validate_sync-ok :
      (v : Validator fl) (pool : OperationPool) (uo : UserOperation) (base_fee : ℕ)
      → (validate_sync fl v (some pool) uo base_fee).1 ≡ ok tt
      → (validate_static_fields v.chain_spec uo ≡ ok tt)
        × (covers (Op.gas_fees uo) base_fee v.chain_spec.min_max_priority_fee_per_gas ≡ true)
  unfolding validate_sync validate_pure validate_gas_price
  validate_sync-ok v pool uo base_fee passed = (ground arith, ground arith)

  pub validate_sync_spec :
      (v : Validator fl) (pool : OperationPool) (uo : UserOperation) (base_fee : ℕ)
      → (validate_sync fl v (some pool) uo base_fee).0.chain_spec ≡ v.chain_spec
  unfolding validate_sync
  validate_sync_spec v pool uo base_fee = ground arith

  pub new_entry-Accepted :
      (uo : UserOperation) (entry_point base_fee sequence : ℕ)
      → let uo' = Op.set_context env uo entry_point c.id in
        entry_point ≡ c.entry_point_v0_7
        → validate_static_fields c uo' ≡ ok tt
        → covers (Op.gas_fees uo') 0 c.min_max_priority_fee_per_gas ≡ true
        → Accepted env c (new_entry env uo' base_fee sequence)
  unfolding new_entry Op.set_context Op.with_hash Op.hash Op.compute_hash pack
  new_entry-Accepted uo entry_point base_fee sequence same fields pays = record {
    fields = fields;
    pays = pays;
    for_entry_point = same;
    for_chain = refl;
    hashed = refl;
    identified = refl;
  }

  accept-err :
      (api : EthApi fl) (uo : UserOperation)
      → ((accept fl env api uo).0.op_pool ≡ api.op_pool)
        ⊎ (((validate_sync fl api.validator (some api.op_pool) uo api.base_fee).1 ≡ ok tt)
            × ((accept fl env api uo).0.op_pool ≡ (add env api.op_pool uo api.base_fee).0))
  unfolding accept
  accept-err api uo =
      elim (Result-cases (validate_sync fl api.validator (some api.op_pool) uo api.base_fee).1) [
        | inr (x, bad) ↦ inl (ground (arith, bad))
        | inl (u, good) ↦ inr (good, ground (arith, good))
      ]

  accept-Configured :
      (config : PoolConfig) (api : EthApi fl) (uo : UserOperation)
      → Configured config api
      → Configured config (accept fl env api uo).0
  unfolding accept History.step
  accept-Configured config api uo k =
      let spec = validate_sync_spec api.validator api.op_pool uo api.base_fee in
      let kept = step_config env api.op_pool (adds uo api.base_fee) in
      record {
        spec = ground (arith, k.spec);
        validator_spec = ground (arith, spec, k.validator_spec);
        no_base_fee = ground (arith, k.no_base_fee);
        pool_config = ground (arith, kept, k.pool_config);
      }

  accept-Contains :
      (config : PoolConfig) (api : EthApi fl) (uo : UserOperation) (entry_point : ℕ)
      → let uo' = Op.set_context env uo entry_point c.id in
        entry_point ≡ c.entry_point_v0_7
        → Configured config api
        → Contains (Accepted env c) api.op_pool
        → Contains (Accepted env c) (accept fl env api uo').0.op_pool
  accept-Contains config api uo entry_point same k all =
      let uo' = Op.set_context env uo entry_point c.id in
      elim (accept-err api uo') [
        | inl kept ↦ subst (Contains (Accepted env c)) (sym kept) all
        | inr (good, added) ↦
            let (fields, pays) = validate_sync-ok api.validator api.op_pool uo' api.base_fee good in
            let fields' : validate_static_fields c uo' ≡ ok tt =
              subst (λ s. validate_static_fields s uo' ≡ ok tt) k.validator_spec fields in
            let pays' : covers (Op.gas_fees uo') 0 c.min_max_priority_fee_per_gas ≡ true =
              rw (k.validator_spec, k.no_base_fee) at pays in
            let entry =
              new_entry-Accepted uo entry_point api.base_fee api.op_pool.next_sequence same fields'
                pays' in
            subst (Contains (Accepted env c)) (sym added)
              (add-Contains (Accepted env c) env api.op_pool uo' api.base_fee entry all)
      ]

  pub submit-Contains :
      (config : PoolConfig) (api : EthApi fl) (uo : UserOperation) (entry_point : ℕ)
      → Configured config api
      → Contains (Accepted env c) api.op_pool
      → let api' = (send_user_operation fl env api uo entry_point).0 in
        Configured config api' × Contains (Accepted env c) api'.op_pool
  unfolding send_user_operation is_entry_point
  submit-Contains config api uo entry_point k all =
      elim (Bool-cases (entry_point == api.chain_spec.entry_point_v0_7)) [
        | inr unknown ↦ rw (send_user_operation, is_entry_point, unknown) (k, all)
        | inl known ↦
            let same : entry_point ≡ c.entry_point_v0_7 =
              (==_iff entry_point api.chain_spec.entry_point_v0_7).0 known
              ∙ ap (λ (s : ChainSpec). s.entry_point_v0_7) k.spec in
            let uo' = Op.set_context env uo entry_point c.id in
            let sent : (send_user_operation fl env api uo entry_point).0
                ≡ (accept fl env api uo').0 =
              rw (send_user_operation, is_entry_point, known, k.spec) refl in
            subst (λ (x : EthApi fl). Configured config x × Contains (Accepted env c) x.op_pool)
              (sym sent)
              (
                accept-Configured config api uo' k,
                accept-Contains config api uo entry_point same k all,
              )
      ]
