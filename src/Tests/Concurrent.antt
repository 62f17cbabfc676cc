-- ===== src/Tests/Concurrent.antt =====
-- The theorems on threads that add operations.
use bunzo.Prelude.{ℕ, ◌+◌, ◌≡◌, refl, List, [], ◌∷◌, some, arith, ℕ_discrete}
use bunzo.Prelude.Maps.{get}
use bunzo.Prelude.Result.{ok}
use bunzo.Types.UserOperation.Packing.{UserOperation}
use bunzo.Types.UserOperation as Op
use bunzo.Pool.Entry.{PoolEntry}
use bunzo.Pool.Store.{OperationPool, add}
use bunzo.Pool.Represents.{Represents}
use bunzo.Pool.Concurrent.{Adders, check_hash, returned, alone, interleave}
use bunzo.Pool.Concurrent.Alone.{alone-add}
use bunzo.Pool.Concurrent.Race.{both_check_first, race_exceeds_quota}
use bunzo.Tests.Data.{hasher, op_next, op_bumped, pool_a, pool_a-Represents, entry_a}

-- A replacement that takes all its thirteen steps.
alone-add_example :
    let (p', result) = add hasher pool_a op_bumped 5 in
    alone hasher op_bumped 5 13 pool_a check_hash ≡ (p', returned result)
alone-add_example = alone-add hasher op_bumped 5 pool_a

abbrev op_third : UserOperation
op_third = record op_next { nonce = 5; hash = some 15 }

abbrev start : Adders
start = record { pool = pool_a; first_pc = check_hash; second_pc = check_hash }

-- The quota is two, and the sender 7 has one operation.
race_exceeds_quota_example :
    let s = interleave hasher op_next op_third 5 start both_check_first in
    (s.first_pc ≡ returned (ok 13))
    × (s.second_pc ≡ returned (ok 15))
    × (get ℕ_discrete 7 s.pool.sender_count ≡ some (s.pool.config.max_ops_per_sender + 1))
    × ((l : List PoolEntry) → ¬ Represents s.pool l)
unfolding Op.id bunzo.Pool.Store.get_by_hash get add bunzo.Pool.Store.new bunzo.Pool.Store.admit
    bunzo.Pool.Store.size bunzo.Pool.Store.store bunzo.Prelude.Maps.insert ℕ_discrete Op.hash
    bunzo.Pool.Store.get_by_id bunzo.Pool.Entry.id_discrete bunzo.Pool.Contents.count
    bunzo.Pool.Entry.new_entry
race_exceeds_quota_example =
    race_exceeds_quota hasher op_next op_third 5 pool_a (entry_a ∷ []) pool_a-Represents refl refl
      refl refl refl refl (omega arith) (omega arith)
