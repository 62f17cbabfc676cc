-- ===== src/Tests/Pool.antt =====
-- The theorems on the pool, on pools of two operations.
use bunzo.Prelude.{◌≡◌, refl, length, In, All, ◌⊎◌, ℕ_discrete}
use bunzo.Prelude.Maps.{get, insert}
use bunzo.Types.Error.{already_known}
use bunzo.Types.UserOperation as Op
use bunzo.Pool.Entry.{new_entry, id_discrete}
use bunzo.Pool.Contents.{find_hash}
use bunzo.Pool.Store.{new, add, admit, store, size, remove_by_hash, best_operations, increment}
use bunzo.Pool.Represents.{Represents}
use bunzo.Pool.Refines.{spec_add, spec_remove, add_refines, remove_by_hash_refines}
use bunzo.Pool.Atomic.{add_atomic}
use bunzo.Pool.Best.{BestFirst, GoesFirst, best_operations_best}
use bunzo.Tests.Data.{hasher, op_a, op_bumped, pool_ab, entry_a, entries_ab, pool_ab-Represents}

-- The replacement of `op_a` in a pool of two.
add_refines_example :
    let s = spec_add hasher pool_ab.config pool_ab.next_sequence op_bumped 5 entries_ab in
    ((add hasher pool_ab op_bumped 5).1 ≡ s.1) × Represents (add hasher pool_ab op_bumped 5).0 s.0
add_refines_example = add_refines hasher pool_ab entries_ab pool_ab-Represents op_bumped 5

remove_by_hash_refines_example :
    ((remove_by_hash pool_ab 12).1 ≡ find_hash 12 entries_ab)
    × Represents (remove_by_hash pool_ab 12).0 (spec_remove (find_hash 12 entries_ab) entries_ab)
remove_by_hash_refines_example = remove_by_hash_refines pool_ab entries_ab pool_ab-Represents 12

add_atomic_example : (add hasher pool_ab op_a 5).0 ≡ pool_ab
unfolding add admit store new_entry get new size insert ℕ_discrete Op.hash id_discrete Op.id
    increment
add_atomic_example =
    add_atomic hasher pool_ab entries_ab pool_ab-Represents op_a 5 (already_known 11) refl

best_operations_best_example :
    let best = best_operations pool_ab 1 in
    (length best ≡ 1)
    × BestFirst best
    × (In entry_a best → In entry_a entries_ab)
    × (In entry_a entries_ab → In entry_a best ⊎ All (λ b. GoesFirst b entry_a) best)
best_operations_best_example = best_operations_best pool_ab entries_ab pool_ab-Represents 1 entry_a
