-- ===== src/Pool/Concurrent.antt =====
-- `OperationPool::add` by two threads (crates/pool/src/pool.rs). Each index has a lock of its own,
-- held for one access: a step of a thread is one such access, and the threads take steps in any
-- order. The methods of Pool/Store.antt are what a thread does without interruption.
pub mod Branches
pub mod Alone
pub mod Race
use bunzo.Prelude.{
  ℕ, zero, suc, List, [], ◌∷◌, Option, none, some, leb, ltb, if◌then◌else◌, ℕ_discrete, unwrap_or,
}
use bunzo.Prelude.Words.{saturating_suc_u64}
use bunzo.Prelude.Result.{Result, ok, err}
use bunzo.Prelude.Maps.{get, contains_key}
use bunzo.Prelude.Maps
use bunzo.Types.Error.{PoolError, already_known, replacement_underpriced, pool_full, sender_full}
use bunzo.Types.UserOperation.Packing.{UserOperation, Hasher}
use bunzo.Types.UserOperation as Op
use bunzo.Pool.Entry.{PoolEntry, id_discrete, new_entry}
use bunzo.Pool.Ordered
use bunzo.Pool.Store.{OperationPool, size, min_bump, decrement, increment}

-- Where a thread stands: before the access that the name tells.
pub data Pc : Type 0 where
  check_hash lookup_id check_quota check_size take_sequence : Pc
  remove_hash remove_id remove_ordered remove_count : (old : PoolEntry) → Pc
  insert_hash insert_id insert_ordered insert_count : (entry : PoolEntry) → Pc
  returned : Result PoolError ℕ → Pc

module _ (env : Hasher) (uo : UserOperation) (base_fee : ℕ) where
  -- One access of a thread that adds the operation.
  unfoldable pub advance : OperationPool → Pc → OperationPool × Pc
  advance p check_hash =
      if contains_key ℕ_discrete (Op.hash env uo) p.by_hash
      then (p, returned (err (already_known (Op.hash env uo))))
      else (p, lookup_id)
  advance p lookup_id = elim (get id_discrete (Op.id uo) p.by_id) [
    | none ↦ (p, check_quota)
    | some old ↦
        if ltb uo.max_fee_per_gas (min_bump p.config old.uo.max_fee_per_gas)
        then (p, returned (err (replacement_underpriced old.uo.max_fee_per_gas uo.max_fee_per_gas)))
        else (p, remove_hash old)
  ]
  advance p (remove_hash old) =
      (record p { by_hash = Maps.remove ℕ_discrete old.hash p.by_hash }, remove_id old)
  advance p (remove_id old) =
      (record p { by_id = Maps.remove id_discrete old.id p.by_id }, remove_ordered old)
  advance p (remove_ordered old) =
      (record p { ordered = Ordered.remove old p.ordered }, remove_count old)
  advance p (remove_count old) =
      (record p { sender_count = decrement old.id.sender p.sender_count }, check_quota)
  advance p check_quota =
      let sender = (Op.id uo).sender in
      let count = unwrap_or (get ℕ_discrete sender p.sender_count) 0 in
      if leb p.config.max_ops_per_sender count
      then (p, returned (err (sender_full sender count p.config.max_ops_per_sender)))
      else (p, check_size)
  advance p check_size =
      if leb p.config.max_size (size p)
      then (p, returned (err (pool_full p.config.max_size)))
      else (p, take_sequence)
  advance p take_sequence = (
    record p { next_sequence = saturating_suc_u64 p.next_sequence },
    insert_hash (new_entry env uo base_fee p.next_sequence),
  )
  advance p (insert_hash entry) = (
    record p { by_hash = Maps.insert ℕ_discrete (Op.hash env uo) entry p.by_hash },
    insert_id entry,
  )
  advance p (insert_id entry) =
      (record p { by_id = Maps.insert id_discrete (Op.id uo) entry p.by_id }, insert_ordered entry)
  advance p (insert_ordered entry) =
      (record p { ordered = Ordered.insert entry p.ordered }, insert_count entry)
  advance p (insert_count entry) = (
    record p { sender_count = increment (Op.id uo).sender p.sender_count },
    returned (ok (Op.hash env uo)),
  )
  advance p (returned result) = (p, returned result)

  -- A thread that takes some steps without interruption.
  unfoldable pub alone : ℕ → OperationPool → Pc → OperationPool × Pc
  alone zero p pc = (p, pc)
  alone (suc n) p pc = alone n (advance p pc).0 (advance p pc).1

pub data Thread : Type 0 where
  first second : Thread

-- The shared pool and both threads.
pub record Adders : Type 0 where
  pub pool : OperationPool
  pub first_pc : Pc
  pub second_pc : Pc

module _ (env : Hasher) (uo_first uo_second : UserOperation) (base_fee : ℕ) where
  unfoldable pub move : Adders → Thread → Adders
  unfolding advance
  move s first =
      let (pool, pc) = advance env uo_first base_fee s.pool s.first_pc in
      record s { pool = pool; first_pc = pc }
  move s second =
      let (pool, pc) = advance env uo_second base_fee s.pool s.second_pc in
      record s { pool = pool; second_pc = pc }

  unfoldable pub interleave : Adders → List Thread → Adders
  unfolding move
  interleave s [] = s
  interleave s (thread ∷ threads) = interleave (move s thread) threads
