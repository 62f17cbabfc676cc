-- ===== src/Pool/Contains.antt =====
-- What holds of every entry of a pool stays so when the pool is changed (crates/pool/src/pool.rs).
use bunzo.Prelude.{
  ℕ, inl, inr, List, [], ◌∷◌, Option, none, some, arith, All, Option-cases, Bool-cases, is_some,
}
use bunzo.Types.UserOperation.Packing.{UserOperation, UserOperationId, Hasher}
use bunzo.Types.UserOperation as Op
use bunzo.Pool.Entry.{PoolEntry, PoolConfig, new_entry}
use bunzo.Pool.Contents.{find_hash, find_id, erase}
use bunzo.Pool.Store.{OperationPool, add, remove_by_hash, remove_by_id}
use bunzo.Pool.Represents.{Represents}
use bunzo.Pool.Refines.{
  spec_add, spec_remove, add_refines, remove_by_hash_refines, remove_by_id_refines,
}

-- The pool is consistent, and the predicate holds of each of its entries.
abbrev pub Contains : (PoolEntry → Type 0) → OperationPool → Type 0
Contains A p = (l : List PoolEntry) × Represents p l × All A l

module _ (A : PoolEntry → Type 0) where
  All-erase : (h : ℕ) (l : List PoolEntry) → All A l → All A (erase h l)
  unfolding erase
  All-erase h [] a = tt
  All-erase h (e ∷ l) a = ground (arith, All-erase h l a.1, a.0, a.1)

  All-spec_remove :
      (found : Option PoolEntry) (l : List PoolEntry) → All A l → All A (spec_remove found l)
  unfolding spec_remove
  All-spec_remove none l a = a
  All-spec_remove (some e) l a = All-erase e.hash l a

  All-spec_add :
      (env : Hasher) (config : PoolConfig) (sequence : ℕ) (uo : UserOperation) (base_fee : ℕ)
      (l : List PoolEntry)
      → A (new_entry env uo base_fee sequence)
      → All A l
      → All A (spec_add env config sequence uo base_fee l).0
  unfolding spec_add
  All-spec_add env config sequence uo base_fee l new a =
      elim (Bool-cases (is_some (find_hash (Op.hash env uo) l))) [
        | inl known ↦ ground (arith, a)
        | inr fresh ↦ elim (Option-cases (find_id (Op.id uo) l)) [
          | inl absent ↦ ground (arith, new, a)
          | inr (old, present) ↦ ground (arith, new, a, All-erase old.hash l a)
        ]
      ]

  pub add-Contains :
      (env : Hasher) (p : OperationPool) (uo : UserOperation) (base_fee : ℕ)
      → A (new_entry env uo base_fee p.next_sequence)
      → Contains A p
      → Contains A (add env p uo base_fee).0
  add-Contains env p uo base_fee new (l, r, a) = (
    (spec_add env p.config p.next_sequence uo base_fee l).0,
    (add_refines env p l r uo base_fee).1,
    All-spec_add env p.config p.next_sequence uo base_fee l new a,
  )

  pub remove_by_hash-Contains :
      (p : OperationPool) (h : ℕ) → Contains A p → Contains A (remove_by_hash p h).0
  remove_by_hash-Contains p h (l, r, a) = (
    spec_remove (find_hash h l) l,
    (remove_by_hash_refines p l r h).1,
    All-spec_remove (find_hash h l) l a,
  )

  pub remove_by_id-Contains :
      (p : OperationPool) (i : UserOperationId) → Contains A p → Contains A (remove_by_id p i).0
  remove_by_id-Contains p i (l, r, a) = (
    spec_remove (find_id i l) l,
    (remove_by_id_refines p l r i).1,
    All-spec_remove (find_id i l) l a,
  )
