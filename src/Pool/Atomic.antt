-- ===== src/Pool/Atomic.antt =====
-- What an `add` that fails, and one that succeeds, leave behind (crates/pool/src/pool.rs, `add`).
use bunzo.Prelude.{
  ℕ, ◌==◌, ◌≡◌, sym, ◌∙◌, inl, inr, List, Option, none, some, arith, if◌then◌else◌, Option-cases,
}
use bunzo.Prelude.Maps.{get}
use bunzo.Prelude.Result.{ok, err}
use bunzo.Types.Error.{PoolError}
use bunzo.Types.UserOperation.Packing.{UserOperation, Hasher}
use bunzo.Types.UserOperation as Op
use bunzo.Pool.Entry.{PoolEntry, PoolConfig, new_entry}
use bunzo.Pool.Contents.{hash_index, id_index, find_hash, find_id, find_hash-erase}
use bunzo.Pool.Store.{OperationPool, admit, add, get_by_hash, get_by_id}
use bunzo.Pool.Represents.{Represents}
use bunzo.Pool.Refines.{spec_add, add_refines, admit_replacement}

admit_error :
    (env : Hasher) (p : OperationPool) (uo : UserOperation) (base_fee : ℕ) (e : PoolError)
    → (admit env p uo base_fee).1 ≡ err e
    → (admit env p uo base_fee).0 ≡ p
unfolding admit
admit_error env p uo base_fee e h = ground arith

module _ (env : Hasher) (p : OperationPool) (l : List PoolEntry) (r : Represents p l) where
  -- `add` is atomic: when it returns an error the pool is the one that it was called on, although
  -- the code removes the replaced operation before it checks the limits.
  pub add_atomic :
      (uo : UserOperation) (base_fee : ℕ) (e : PoolError)
      → (add env p uo base_fee).1 ≡ err e
      → (add env p uo base_fee).0 ≡ p
  unfolding add
  add_atomic uo base_fee e h = elim (Option-cases (find_hash (Op.hash env uo) l)) [
    | inr (x, fh) ↦ ground (arith, r.by_hash_is)
    | inl fh ↦ elim (Option-cases (find_id (Op.id uo) l)) [
      | inl fi ↦ ground (arith, r.by_hash_is, r.by_id_is, admit_error env p uo base_fee e)
      | inr (old, fi) ↦
          ground
            (arith, r.by_hash_is, r.by_id_is, (admit_replacement env p l r uo old fh fi base_fee).0)
    ]
  ]

-- What a lookup by hash answers after a new entry went in and an old one, if any, went out.
abbrev pub lookup_after : Option PoolEntry → PoolEntry → ℕ → Option PoolEntry → Option PoolEntry
lookup_after none entry k before = if entry.hash == k then some entry else before
lookup_after (some old) entry k before =
    if entry.hash == k then some entry else if old.hash == k then none else before

spec_add_found :
    (env : Hasher) (c : PoolConfig) (n : ℕ) (uo : UserOperation) (base_fee h k : ℕ)
    (l : List PoolEntry)
    → (spec_add env c n uo base_fee l).1 ≡ ok h
    → let s = (spec_add env c n uo base_fee l).0 in
      let entry = new_entry env uo base_fee n in
      (h ≡ Op.hash env uo)
      × (find_id (Op.id uo) s ≡ some entry)
      × (find_hash k s ≡ lookup_after (find_id (Op.id uo) l) entry k (find_hash k l))
unfolding spec_add hash_index id_index get new_entry
spec_add_found env c n uo base_fee h k l e = elim (Option-cases (find_id (Op.id uo) l)) [
  | inl fi ↦ ground arith
  | inr (old, fi) ↦ ground (arith, find_hash-erase old.hash k l)
]

module _ (env : Hasher) (p : OperationPool) (l : List PoolEntry) (r : Represents p l) where
  -- After a successful `add`, which returns the hash of the operation, the identifier finds the
  -- new entry. A lookup by hash finds the new entry under its hash, nothing under the hash of the
  -- operation that was replaced, and under any other hash what it found before.
  pub add_found :
      (uo : UserOperation) (base_fee h k : ℕ)
      → (add env p uo base_fee).1 ≡ ok h
      → let q = (add env p uo base_fee).0 in
        let entry = new_entry env uo base_fee p.next_sequence in
        (h ≡ Op.hash env uo)
        × (get_by_id q (Op.id uo) ≡ some entry)
        × (get_by_hash q k ≡ lookup_after (get_by_id p (Op.id uo)) entry k (get_by_hash p k))
  unfolding get_by_id get_by_hash
  add_found uo base_fee h k added =
      let (same, q) = add_refines env p l r uo base_fee in
      let spec = spec_add_found env p.config p.next_sequence uo base_fee h k l (sym same ∙ added) in
      rw (q.by_id_is, q.by_hash_is, r.by_id_is, r.by_hash_is) spec
