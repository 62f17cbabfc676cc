-- ===== src/Pool/Found.antt =====
-- Which identifiers a pool answers after it is changed (crates/pool/src/pool.rs).
use bunzo.Prelude.{
  ℕ, ◌≡◌, sym, subst, ◌∙◌, ◌⊎◌, inl, inr, true, List, ◌∷◌, some, arith, Option-cases, Bool-cases,
  is_some,
}
use bunzo.Prelude.Maps.{get, get-remove}
use bunzo.Types.UserOperation.Packing.{UserOperation, UserOperationId, Hasher}
use bunzo.Types.UserOperation as Op
use bunzo.Pool.Entry.{PoolEntry, id_discrete, new_entry}
use bunzo.Pool.Contents.{
  find_hash, find_id, id_index, erase, hash-find_hash, id-find_id, find_hash-find_id,
  remove-id_index,
}
use bunzo.Pool.Store.{OperationPool, add, remove_by_hash, remove_by_id, get_by_hash, get_by_id}
use bunzo.Pool.Represents.{Represents}
use bunzo.Pool.Refines.{
  spec_add, spec_remove, add_refines, remove_by_hash_refines, remove_by_id_refines,
}

-- The pool holds an operation with the identifier.
abbrev pub Found : UserOperationId → OperationPool → Type 0
Found i p = is_some (get_by_id p i) ≡ true

module _ (i : UserOperationId) (e : PoolEntry) (l : List PoolEntry) where
  find_id-cons : is_some (find_id i l) ≡ true → is_some (find_id i (e ∷ l)) ≡ true
  unfolding id_index get
  find_id-cons h = ground arith

  find_id-new : e.id ≡ i → is_some (find_id i (e ∷ l)) ≡ true
  unfolding id_index get
  find_id-new h = ground arith

module _ (i : UserOperationId) (p : OperationPool) (l : List PoolEntry) (r : Represents p l) where
  -- An entry leaves with its identifier alone.
  find_id-erase :
      (e : PoolEntry)
      → find_hash e.hash l ≡ some e
      → is_some (find_id i l) ≡ true
      → (is_some (find_id i (erase e.hash l)) ≡ true) ⊎ (e.id ≡ i)
  find_id-erase e f h = elim (id_discrete e.id i) [
    | yes same ↦ inr same
    | no other ↦ inl (
        ground (
          arith,
          remove-id_index e.hash l e r.distinct f,
          get-remove id_discrete e.id i (id_index l),
        ))
  ]

  unchanged : (q : OperationPool) → Represents q l → Found i p → Found i q
  unfolding get_by_id
  unchanged q r' h = ground (arith, r.by_id_is, r'.by_id_is, h)

  -- An addition loses no identifier: a replacement has that of the operation that it replaces.
  spec_add-Found :
      (env : Hasher) (sequence : ℕ) (uo : UserOperation) (base_fee : ℕ)
      → is_some (find_id i l) ≡ true
      → is_some (find_id i (spec_add env p.config sequence uo base_fee l).0) ≡ true
  unfolding spec_add new_entry
  spec_add-Found env sequence uo base_fee h =
      let entry = new_entry env uo base_fee sequence in
      let kept = find_id-cons i entry l h in
      elim (Bool-cases (is_some (find_hash (Op.hash env uo) l))) [
        | inl known ↦ ground (arith, h)
        | inr fresh ↦ elim (Option-cases (find_id (Op.id uo) l)) [
          | inl absent ↦ ground (arith, h, kept)
          | inr (old, present) ↦
              let left = erase old.hash l in
              let f = find_hash-find_id (Op.id uo) l old r.distinct present in
              elim (find_id-erase old f h) [
                | inl stays ↦ ground (arith, h, find_id-cons i entry left stays)
                | inr same ↦
                    let new : is_some (find_id i (entry ∷ left)) ≡ true =
                      find_id-new i entry left (sym (id-find_id (Op.id uo) l old present) ∙ same) in
                    ground (arith, h, new)
              ]
        ]
      ]

  pub add-Found :
      (env : Hasher) (uo : UserOperation) (base_fee : ℕ)
      → Found i p
      → Found i (add env p uo base_fee).0
  unfolding get_by_id
  add-Found env uo base_fee h =
      let r' = (add_refines env p l r uo base_fee).1 in
      let kept = spec_add-Found env p.next_sequence uo base_fee (rw r.by_id_is at h) in
      rw r'.by_id_is kept

  remove-Found :
      (q : OperationPool) (e : PoolEntry)
      → Represents q (erase e.hash l)
      → find_hash e.hash l ≡ some e
      → Found i p
      → Found i q ⊎ (e.id ≡ i)
  unfolding get_by_id
  remove-Found q e r' f h = elim (find_id-erase e f (rw r.by_id_is at h)) [
    | inl stays ↦ inl (rw r'.by_id_is stays)
    | inr same ↦ inr same
  ]

  pub remove_by_hash-Found :
      (hash : ℕ)
      → Found i p
      → Found i (remove_by_hash p hash).0
        ⊎ ((e : PoolEntry) × (get_by_hash p hash ≡ some e) × (e.id ≡ i))
  unfolding get_by_hash spec_remove
  remove_by_hash-Found hash h =
      let q = (remove_by_hash p hash).0 in
      let r' = (remove_by_hash_refines p l r hash).1 in
      elim (Option-cases (find_hash hash l)) [
        | inl missing ↦ inl (unchanged q (rw missing at r') h)
        | inr (e, f) ↦
            let same = hash-find_hash hash l e f in
            let found : find_hash e.hash l ≡ some e =
              subst (λ x. find_hash x l ≡ some e) (sym same) f in
            elim (remove-Found q e (rw f at r') found h) [
              | inl stays ↦ inl stays
              | inr gone ↦ inr (e, rw r.by_hash_is f, gone)
            ]
      ]

  pub remove_by_id-Found :
      (k : UserOperationId) → Found i p → Found i (remove_by_id p k).0 ⊎ (k ≡ i)
  unfolding spec_remove
  remove_by_id-Found k h =
      let q = (remove_by_id p k).0 in
      let r' = (remove_by_id_refines p l r k).1 in
      elim (Option-cases (find_id k l)) [
        | inl missing ↦ inl (unchanged q (rw missing at r') h)
        | inr (e, f) ↦
            elim (remove-Found q e (rw f at r') (find_hash-find_id k l e r.distinct f) h) [
              | inl stays ↦ inl stays
              | inr gone ↦ inr (sym (id-find_id k l e f) ∙ gone)
            ]
      ]
