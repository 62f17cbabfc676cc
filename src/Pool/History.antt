-- ===== src/Pool/History.antt =====
-- Pools that arise from a new one by calls of its methods (crates/pool/src/pool.rs).
use bunzo.Prelude.{
  ℕ, ◌≤◌, ◌<◌, ◌≡◌, refl, ◌∙◌, ◌↔◌, List, [], ◌∷◌, some, arith, ℕ_discrete, unwrap_or,
}
use bunzo.Prelude.Words.{u64_mod}
use bunzo.Prelude.Maps.{get}
use bunzo.Types.UserOperation.Packing.{UserOperation, UserOperationId, Hasher}
use bunzo.Pool.Entry.{PoolEntry, PoolConfig}
use bunzo.Pool.Contents.{
  find_hash, find_id, id-find_id, hash-find_hash, find_id-find_hash, find_hash-find_id,
}
use bunzo.Pool.Store.{
  OperationPool, new, size, add, remove_by_hash, remove_by_id, clear, get_by_hash, get_by_id,
  remove_inner, admit, store,
}
use bunzo.Pool.Represents.{Represents, new-Represents, clear-Represents, size-length}
use bunzo.Pool.Refines.{
  spec_add, spec_remove, add_refines, remove_by_hash_refines, remove_by_id_refines,
}

pub data Call : Type 0 where
  adds : UserOperation → (base_fee : ℕ) → Call
  removes_hash : ℕ → Call
  removes_id : UserOperationId → Call
  clears : Call

unfoldable pub step : Hasher → OperationPool → Call → OperationPool
step env p (adds uo base_fee) = (add env p uo base_fee).0
step env p (removes_hash h) = (remove_by_hash p h).0
step env p (removes_id i) = (remove_by_id p i).0
step env p clears = clear p

unfoldable pub run : Hasher → OperationPool → List Call → OperationPool
run env p [] = p
run env p (c ∷ cs) = run env (step env p c) cs

unfoldable pub spec_step : Hasher → PoolConfig → ℕ → List PoolEntry → Call → List PoolEntry
spec_step env config sequence l (adds uo base_fee) = (spec_add env config sequence uo base_fee l).0
spec_step env config sequence l (removes_hash h) = spec_remove (find_hash h l) l
spec_step env config sequence l (removes_id i) = spec_remove (find_id i l) l
spec_step env config sequence l clears = []

step-Represents :
    (env : Hasher) (p : OperationPool) (l : List PoolEntry) (c : Call)
    → Represents p l
    → Represents (step env p c) (spec_step env p.config p.next_sequence l c)
unfolding step spec_step
step-Represents env p l (adds uo base_fee) r = (add_refines env p l r uo base_fee).1
step-Represents env p l (removes_hash h) r = (remove_by_hash_refines p l r h).1
step-Represents env p l (removes_id i) r = (remove_by_id_refines p l r i).1
step-Represents env p l clears r = clear-Represents p l r

pub step_config : (env : Hasher) (p : OperationPool) (c : Call) → (step env p c).config ≡ p.config
unfolding step add admit store remove_by_hash remove_by_id remove_inner clear
step_config env p (adds uo base_fee) = ground arith
step_config env p (removes_hash h) = ground arith
step_config env p (removes_id i) = ground arith
step_config env p clears = refl

pub run-Represents :
    (env : Hasher) (p : OperationPool) (l : List PoolEntry) (cs : List Call)
    → Represents p l
    → (l' : List PoolEntry) × Represents (run env p cs) l'
unfolding run
run-Represents env p l [] r = (l, r)
run-Represents env p l (c ∷ cs) r =
    run-Represents env (step env p c) (spec_step env p.config p.next_sequence l c) cs
      (step-Represents env p l c r)

run_config : (env : Hasher) (p : OperationPool) (cs : List Call) → (run env p cs).config ≡ p.config
unfolding run
run_config env p [] = refl
run_config env p (c ∷ cs) = run_config env (step env p c) cs ∙ step_config env p c

-- A pool that was made by `new`, with a sender quota that fits a 64-bit word, and then changed by
-- any calls, represents some list of entries with distinct hashes and identifiers.
pub reachable-Represents :
    (env : Hasher) (c : PoolConfig) (cs : List Call)
    → c.max_ops_per_sender < u64_mod
    → (l : List PoolEntry) × Represents (run env (new c) cs) l
reachable-Represents env c cs h = run-Represents env (new c) [] cs (new-Represents c h)

-- After any calls on a new pool whose sender quota fits a 64-bit word, the pool holds at most
-- `max_size` operations, and the counter of a sender is at most `max_ops_per_sender`.
pub run_bounds :
    (env : Hasher) (c : PoolConfig) (cs : List Call) (sender : ℕ)
    → c.max_ops_per_sender < u64_mod
    → let p = run env (new c) cs in
      (size p ≤ c.max_size)
      × (unwrap_or (get ℕ_discrete sender p.sender_count) 0 ≤ c.max_ops_per_sender)
unfolding new
run_bounds env c cs sender h =
    let (l, r) = reachable-Represents env c cs h in
    let same = run_config env (new c) cs in
    ground
      (arith, size-length (run env (new c) cs) l r, r.room, r.quota sender, r.counted sender, same)

-- After any calls on a new pool whose sender quota fits a 64-bit word, the two indices agree: an
-- entry is found by its own hash exactly when it is found by its own identifier, and what a key
-- finds has that key.
pub run_indices :
    (env : Hasher) (c : PoolConfig) (cs : List Call) (e : PoolEntry)
    → c.max_ops_per_sender < u64_mod
    → let p = run env (new c) cs in
      ((get_by_hash p e.hash ≡ some e) ↔ (get_by_id p e.id ≡ some e))
      × ((h : ℕ) → get_by_hash p h ≡ some e → e.hash ≡ h)
      × ((i : UserOperationId) → get_by_id p i ≡ some e → e.id ≡ i)
unfolding get_by_hash get_by_id
run_indices env c cs e small =
    let (l, r) = reachable-Represents env c cs small in
    rw (r.by_hash_is, r.by_id_is)
      (
        (find_id-find_hash e.hash l e r.distinct, find_hash-find_id e.id l e r.distinct),
        λ h. hash-find_hash h l e,
        λ i. id-find_id i l e,
      )
