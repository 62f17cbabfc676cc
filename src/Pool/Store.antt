-- ===== src/Pool/Store.antt =====
-- The operation pool (crates/pool/src/pool.rs, `OperationPool`). Each method takes the pool and
-- returns the new one; a call runs alone, so the locks are left out. The `HashMap`s are the maps of
-- Prelude/Maps.antt, the `BTreeSet` is the ordered list of Pool/Ordered.antt.
use bunzo.Prelude.{
  ℕ, ◌-◌, ◌/◌, ◌==◌, ◌&&◌, max, List, [], ◌∷◌, Option, none, some, ltb, leb, unwrap_or,
  if◌then◌else◌, length, take, ℕ_discrete,
}
use bunzo.Prelude.Words.{add_u64, add_u128, mul_u128, saturating_suc_u64}
use bunzo.Prelude.Maps.{HashMap, get, contains_key, keys, values}
use bunzo.Prelude.Maps
use bunzo.Prelude.Result.{Result, ok, err}
use bunzo.Types.Error.{PoolError, already_known, replacement_underpriced, pool_full, sender_full}
use bunzo.Types.UserOperation.Packing.{UserOperation, UserOperationId, Hasher}
use bunzo.Types.UserOperation.Nonce.{nonce_key, nonce_sequence}
use bunzo.Types.UserOperation as Op
use bunzo.Pool.Entry.{PoolConfig, PoolEntry, new_entry, id_discrete}
use bunzo.Pool.Ordered

pub record OperationPool : Type 0 where
  pub by_hash : HashMap ℕ PoolEntry
  pub by_id : HashMap UserOperationId PoolEntry
  pub ordered : List PoolEntry
  pub sender_count : HashMap ℕ ℕ
  pub next_sequence : ℕ
  pub config : PoolConfig

unfoldable pub new : PoolConfig → OperationPool
new config = record {
  by_hash = [];
  by_id = [];
  ordered = [];
  sender_count = [];
  next_sequence = 0;
  config = config;
}

unfoldable pub size : OperationPool → ℕ
size p = length p.by_hash

unfoldable pub get_by_hash : OperationPool → ℕ → Option PoolEntry
get_by_hash p hash = get ℕ_discrete hash p.by_hash

unfoldable pub get_by_id : OperationPool → UserOperationId → Option PoolEntry
get_by_id p id = get id_discrete id p.by_id

-- The last part of `remove_inner`: one operation less, and no entry for a count of zero.
unfoldable pub decrement : ℕ → HashMap ℕ ℕ → HashMap ℕ ℕ
decrement sender counts = elim (get ℕ_discrete sender counts) [
  | none ↦ counts
  | some count ↦
      if count - 1 == 0
      then Maps.remove ℕ_discrete sender counts
      else Maps.insert ℕ_discrete sender (count - 1) counts
]

-- `*entry(sender).or_insert(0) += 1`.
unfoldable pub increment : ℕ → HashMap ℕ ℕ → HashMap ℕ ℕ
increment sender counts =
    Maps.insert ℕ_discrete sender (add_u64 (unwrap_or (get ℕ_discrete sender counts) 0) 1) counts

unfoldable pub remove_inner : OperationPool → PoolEntry → OperationPool
remove_inner p entry = record p {
  by_hash = Maps.remove ℕ_discrete entry.hash p.by_hash;
  by_id = Maps.remove id_discrete entry.id p.by_id;
  ordered = Ordered.remove entry p.ordered;
  sender_count = decrement entry.id.sender p.sender_count;
}

-- The least fee that replaces an operation.
unfoldable pub min_bump : PoolConfig → ℕ → ℕ
min_bump config existing_fee =
    add_u128 existing_fee (mul_u128 existing_fee config.replacement_fee_bump_bps / 10000)

module _ (env : Hasher) where
  -- The insertions at the end of `add`.
  unfoldable pub store : OperationPool → UserOperation → ℕ → OperationPool
  store p uo base_fee =
      let entry = new_entry env uo base_fee p.next_sequence in
      record p {
        by_hash = Maps.insert ℕ_discrete (Op.hash env uo) entry p.by_hash;
        by_id = Maps.insert id_discrete (Op.id uo) entry p.by_id;
        ordered = Ordered.insert entry p.ordered;
        sender_count = increment (Op.id uo).sender p.sender_count;
        next_sequence = saturating_suc_u64 p.next_sequence;
      }

  -- `add` from the check of the sender's quota on.
  unfoldable pub admit : OperationPool → UserOperation → ℕ → OperationPool × Result PoolError ℕ
  admit p uo base_fee =
      let sender = (Op.id uo).sender in
      let count = unwrap_or (get ℕ_discrete sender p.sender_count) 0 in
      if leb p.config.max_ops_per_sender count
      then (p, err (sender_full sender count p.config.max_ops_per_sender))
      else if leb p.config.max_size (size p)
      then (p, err (pool_full p.config.max_size))
      else (store p uo base_fee, ok (Op.hash env uo))

  unfoldable pub add : OperationPool → UserOperation → ℕ → OperationPool × Result PoolError ℕ
  add p uo base_fee =
      if contains_key ℕ_discrete (Op.hash env uo) p.by_hash
      then (p, err (already_known (Op.hash env uo)))
      else elim (get id_discrete (Op.id uo) p.by_id) [
        | none ↦ admit p uo base_fee
        | some entry ↦
            if ltb uo.max_fee_per_gas (min_bump p.config entry.uo.max_fee_per_gas)
            then (p, err (replacement_underpriced entry.uo.max_fee_per_gas uo.max_fee_per_gas))
            else admit (remove_inner p entry) uo base_fee
      ]

unfoldable pub remove_by_hash : OperationPool → ℕ → OperationPool × Option PoolEntry
remove_by_hash p hash = elim (get ℕ_discrete hash p.by_hash) [
  | none ↦ (p, none)
  | some entry ↦ (remove_inner p entry, some entry)
]

unfoldable pub remove_by_id : OperationPool → UserOperationId → OperationPool × Option PoolEntry
remove_by_id p id = elim (get id_discrete id p.by_id) [
  | none ↦ (p, none)
  | some entry ↦ (remove_inner p entry, some entry)
]

unfoldable pub best_operations : OperationPool → ℕ → List PoolEntry
best_operations p max_count = take max_count p.ordered

-- The sequence counter keeps its value.
unfoldable pub clear : OperationPool → OperationPool
clear p = record p { by_hash = []; by_id = []; ordered = []; sender_count = [] }

unfoldable pub all_hashes : OperationPool → List ℕ
all_hashes p = keys p.by_hash

unfoldable pub dump : OperationPool → List PoolEntry
dump p = values p.by_hash

-- `max` over the sequences of the identifiers with the sender and the nonce key.
unfoldable pub max_sequence : ℕ → ℕ → HashMap UserOperationId PoolEntry → Option ℕ
max_sequence sender key [] = none
max_sequence sender key ((id, _) ∷ m) =
    let rest = max_sequence sender key m in
    if (id.sender == sender) && (nonce_key id == key)
    then some (max (nonce_sequence id) (unwrap_or rest 0))
    else rest

unfoldable pub max_nonce_sequence : OperationPool → ℕ → ℕ → Option ℕ
unfolding max_sequence
max_nonce_sequence p sender nonce_key = max_sequence sender nonce_key p.by_id
