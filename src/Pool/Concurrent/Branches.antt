-- ===== src/Pool/Concurrent/Branches.antt =====
-- The branches of the steps and of the methods that they are parts of (crates/pool/src/pool.rs).
use bunzo.Prelude.{ℕ, ◌≡◌, true, false, none, some, leb, ltb, arith, ℕ_discrete, unwrap_or}
use bunzo.Prelude.Result.{ok, err}
use bunzo.Prelude.Maps.{get, contains_key}
use bunzo.Types.Error.{already_known, replacement_underpriced, pool_full, sender_full}
use bunzo.Types.UserOperation.Packing.{UserOperation, Hasher}
use bunzo.Types.UserOperation as Op
use bunzo.Pool.Entry.{PoolEntry, id_discrete}
use bunzo.Pool.Store.{OperationPool, size, min_bump, remove_inner, store, admit, add}
use bunzo.Pool.Concurrent.{
  check_hash, lookup_id, check_quota, check_size, take_sequence, remove_hash, returned, advance,
}

module _ (env : Hasher) (uo : UserOperation) (base_fee : ℕ) where
  pub no_quota :
      (p : OperationPool)
      → leb p.config.max_ops_per_sender
          (unwrap_or (get ℕ_discrete (Op.id uo).sender p.sender_count) 0)
        ≡ true
      → advance env uo base_fee p check_quota ≡ (
        p,
        returned (
            err (
              sender_full
                (Op.id uo).sender
                (unwrap_or (get ℕ_discrete (Op.id uo).sender p.sender_count) 0)
                p.config.max_ops_per_sender)),
      )
  unfolding advance
  no_quota p h = ground arith

  pub some_quota :
      (p : OperationPool)
      → leb p.config.max_ops_per_sender
          (unwrap_or (get ℕ_discrete (Op.id uo).sender p.sender_count) 0)
        ≡ false
      → advance env uo base_fee p check_quota ≡ (p, check_size)
  unfolding advance
  some_quota p h = ground arith

  pub no_room :
      (p : OperationPool)
      → leb p.config.max_size (size p) ≡ true
      → advance env uo base_fee p check_size ≡ (p, returned (err (pool_full p.config.max_size)))
  unfolding advance
  no_room p h = ground arith

  pub some_room :
      (p : OperationPool)
      → leb p.config.max_size (size p) ≡ false
      → advance env uo base_fee p check_size ≡ (p, take_sequence)
  unfolding advance
  some_room p h = ground arith

  pub admit_no_quota :
      (p : OperationPool)
      → leb p.config.max_ops_per_sender
          (unwrap_or (get ℕ_discrete (Op.id uo).sender p.sender_count) 0)
        ≡ true
      → admit env p uo base_fee ≡ (
        p,
        err (
            sender_full
              (Op.id uo).sender
              (unwrap_or (get ℕ_discrete (Op.id uo).sender p.sender_count) 0)
              p.config.max_ops_per_sender),
      )
  unfolding admit
  admit_no_quota p h = ground arith

  pub admit_no_room :
      (p : OperationPool)
      → leb p.config.max_ops_per_sender
          (unwrap_or (get ℕ_discrete (Op.id uo).sender p.sender_count) 0)
        ≡ false
      → leb p.config.max_size (size p) ≡ true
      → admit env p uo base_fee ≡ (p, err (pool_full p.config.max_size))
  unfolding admit
  admit_no_room p h0 h1 = ground arith

  pub admit_room :
      (p : OperationPool)
      → leb p.config.max_ops_per_sender
          (unwrap_or (get ℕ_discrete (Op.id uo).sender p.sender_count) 0)
        ≡ false
      → leb p.config.max_size (size p) ≡ false
      → admit env p uo base_fee ≡ (store env p uo base_fee, ok (Op.hash env uo))
  unfolding admit
  admit_room p h0 h1 = ground arith

  pub known :
      (p : OperationPool)
      → contains_key ℕ_discrete (Op.hash env uo) p.by_hash ≡ true
      → advance env uo base_fee p check_hash ≡ (p, returned (err (already_known (Op.hash env uo))))
  unfolding advance
  known p h0 = ground arith

  pub unknown :
      (p : OperationPool)
      → contains_key ℕ_discrete (Op.hash env uo) p.by_hash ≡ false
      → advance env uo base_fee p check_hash ≡ (p, lookup_id)
  unfolding advance
  unknown p h0 = ground arith

  pub no_old :
      (p : OperationPool)
      → get id_discrete (Op.id uo) p.by_id ≡ none
      → advance env uo base_fee p lookup_id ≡ (p, check_quota)
  unfolding advance
  no_old p h0 = ground arith

  pub underpriced :
      (p : OperationPool) (old : PoolEntry)
      → get id_discrete (Op.id uo) p.by_id ≡ some old
      → ltb uo.max_fee_per_gas (min_bump p.config old.uo.max_fee_per_gas) ≡ true
      → advance env uo base_fee p lookup_id
        ≡ (p, returned (err (replacement_underpriced old.uo.max_fee_per_gas uo.max_fee_per_gas)))
  unfolding advance
  underpriced p old h0 h1 = ground arith

  pub pays_bump :
      (p : OperationPool) (old : PoolEntry)
      → get id_discrete (Op.id uo) p.by_id ≡ some old
      → ltb uo.max_fee_per_gas (min_bump p.config old.uo.max_fee_per_gas) ≡ false
      → advance env uo base_fee p lookup_id ≡ (p, remove_hash old)
  unfolding advance
  pays_bump p old h0 h1 = ground arith

  pub add_known :
      (p : OperationPool)
      → contains_key ℕ_discrete (Op.hash env uo) p.by_hash ≡ true
      → add env p uo base_fee ≡ (p, err (already_known (Op.hash env uo)))
  unfolding add
  add_known p h0 = ground arith

  pub add_new :
      (p : OperationPool)
      → contains_key ℕ_discrete (Op.hash env uo) p.by_hash ≡ false
      → get id_discrete (Op.id uo) p.by_id ≡ none
      → add env p uo base_fee ≡ admit env p uo base_fee
  unfolding add
  add_new p h0 h1 = ground arith

  pub add_underpriced :
      (p : OperationPool) (old : PoolEntry)
      → contains_key ℕ_discrete (Op.hash env uo) p.by_hash ≡ false
      → get id_discrete (Op.id uo) p.by_id ≡ some old
      → ltb uo.max_fee_per_gas (min_bump p.config old.uo.max_fee_per_gas) ≡ true
      → add env p uo base_fee
        ≡ (p, err (replacement_underpriced old.uo.max_fee_per_gas uo.max_fee_per_gas))
  unfolding add
  add_underpriced p old h0 h1 h2 = ground arith

  pub add_replaces :
      (p : OperationPool) (old : PoolEntry)
      → contains_key ℕ_discrete (Op.hash env uo) p.by_hash ≡ false
      → get id_discrete (Op.id uo) p.by_id ≡ some old
      → ltb uo.max_fee_per_gas (min_bump p.config old.uo.max_fee_per_gas) ≡ false
      → add env p uo base_fee ≡ admit env (remove_inner p old) uo base_fee
  unfolding add
  add_replaces p old h0 h1 h2 = ground arith
