-- ===== src/Pool/Refines.antt =====
-- The contract of the operation pool, over the abstract list of its entries, and the proof that
-- `add`, `remove_by_hash` and `remove_by_id` of crates/pool/src/pool.rs implement it.
use bunzo.Prelude.{
  ℕ, ◌+◌, ◌*◌, ◌/◌, ◌%◌, ◌<◌, ◌≡◌, refl, inl, inr, List, ◌∷◌, Option, none, some, arith, length,
  if◌then◌else◌, leb, ltb, is_some, Option-cases,
}
use bunzo.Prelude.Words.{u128_mod}
use bunzo.Prelude.Result.{Result, ok, err}
use bunzo.Types.Error.{PoolError, already_known, replacement_underpriced, pool_full, sender_full}
use bunzo.Types.UserOperation.Packing.{UserOperation, UserOperationId, Hasher}
use bunzo.Types.UserOperation as Op
use bunzo.Pool.Entry.{PoolEntry, PoolConfig, id_discrete, new_entry}
use bunzo.Pool.Contents.{
  id_index, find_hash, find_id, erase, count, id-find_id, hash-find_hash, find_hash-erase,
  find_hash-find_id, remove-id_index, count-erase, length-erase,
}
use bunzo.Prelude.Maps.{get-remove}
use bunzo.Pool.Store.{
  OperationPool, remove_inner, min_bump, store, admit, add, remove_by_hash, remove_by_id,
}
use bunzo.Pool.Represents.{Represents, size-length, remove_inner-Represents, store-Represents}

-- The fee that a replacement has to offer: the old one and the bump in basis points of it, in 128
-- bits.
unfoldable pub least_fee : PoolConfig → ℕ → ℕ
least_fee config old = (old + old * config.replacement_fee_bump_bps % u128_mod / 10000) % u128_mod

min_bump-least_fee : (config : PoolConfig) (old : ℕ) → min_bump config old ≡ least_fee config old
unfolding min_bump least_fee
min_bump-least_fee config old = refl

-- What a caller of `add` may rely on. A known hash is refused; an operation with a known
-- identifier replaces the old one if it pays the bump, whatever the limits; a new operation is
-- held to the sender's quota and to the size of the pool. A refusal changes nothing.
unfoldable pub spec_add :
    Hasher
    → PoolConfig
    → ℕ
    → UserOperation
    → ℕ
    → List PoolEntry
    → List PoolEntry × Result PoolError ℕ
spec_add env config sequence uo base_fee l =
    let hash = Op.hash env uo in
    let entry = new_entry env uo base_fee sequence in
    let sender = (Op.id uo).sender in
    let max_ops = config.max_ops_per_sender in
    if is_some (find_hash hash l)
    then (l, err (already_known hash))
    else elim (find_id (Op.id uo) l) [
      | some old ↦
          if ltb uo.max_fee_per_gas (least_fee config old.uo.max_fee_per_gas)
          then (l, err (replacement_underpriced old.uo.max_fee_per_gas uo.max_fee_per_gas))
          else (entry ∷ erase old.hash l, ok hash)
      | none ↦
          if leb max_ops (count sender l)
          then (l, err (sender_full sender (count sender l) max_ops))
          else if leb config.max_size (length l)
          then (l, err (pool_full config.max_size))
          else (entry ∷ l, ok hash)
    ]

unfoldable pub spec_remove : Option PoolEntry → List PoolEntry → List PoolEntry
spec_remove none l = l
spec_remove (some e) l = erase e.hash l

module _ (env : Hasher) (p : OperationPool) (l : List PoolEntry) (r : Represents p l) where
  admit_new :
      (uo : UserOperation) (base_fee : ℕ)
      → find_hash (Op.hash env uo) l ≡ none
      → find_id (Op.id uo) l ≡ none
      → let s = spec_add env p.config p.next_sequence uo base_fee l in
        ((admit env p uo base_fee).1 ≡ s.1) × Represents (admit env p uo base_fee).0 s.0
  unfolding admit spec_add
  admit_new uo base_fee fh fi = ground (
    arith,
    r.counted (Op.id uo).sender,
    size-length p l r,
    store-Represents p l r env uo base_fee fh fi,
  )

  admit_within :
      (uo : UserOperation) (base_fee : ℕ)
      → count (Op.id uo).sender l < p.config.max_ops_per_sender
      → length l < p.config.max_size
      → admit env p uo base_fee ≡ (store env p uo base_fee, ok (Op.hash env uo))
  unfolding admit
  admit_within uo base_fee quota room =
      ground (arith, r.counted (Op.id uo).sender, size-length p l r)

module _ (env : Hasher) (p : OperationPool) (l : List PoolEntry) (r : Represents p l)
    (uo : UserOperation) (old : PoolEntry) (fh : find_hash (Op.hash env uo) l ≡ none)
    (fi : find_id (Op.id uo) l ≡ some old) where
  old_found : find_hash old.hash l ≡ some old
  old_found = find_hash-find_id (Op.id uo) l old r.distinct fi

  old_id : old.id ≡ Op.id uo
  old_id = id-find_id (Op.id uo) l old fi

  gone_hash : find_hash (Op.hash env uo) (erase old.hash l) ≡ none
  gone_hash = ground (arith, find_hash-erase old.hash (Op.hash env uo) l)

  gone_id : find_id (Op.id uo) (erase old.hash l) ≡ none
  gone_id = ground (
    arith,
    old_id,
    remove-id_index old.hash l old r.distinct old_found,
    get-remove id_discrete old.id (Op.id uo) (id_index l),
  )

  -- A replacement passes both limits, since the old operation leaves first.
  pub admit_replacement :
      (base_fee : ℕ)
      → let a = admit env (remove_inner p old) uo base_fee in
        (a.1 ≡ ok (Op.hash env uo))
        × Represents a.0 (new_entry env uo base_fee p.next_sequence ∷ erase old.hash l)
  unfolding remove_inner
  admit_replacement base_fee =
      let left = remove_inner-Represents p l r old old_found in
      let quota : count (Op.id uo).sender (erase old.hash l) < p.config.max_ops_per_sender =
        ground (
          arith,
          old_id,
          r.quota (Op.id uo).sender,
          count-erase (Op.id uo).sender old.hash l old r.distinct old_found,
        ) in
      let room : length (erase old.hash l) < p.config.max_size =
        omega (arith, length-erase old.hash l old r.distinct old_found, r.room) in
      rw (admit_within env (remove_inner p old) (erase old.hash l) left uo base_fee quota room) (
        refl,
        store-Represents (remove_inner p old) (erase old.hash l) left env uo base_fee gone_hash
            gone_id quota room,
      )

module _ (env : Hasher) (p : OperationPool) (l : List PoolEntry) (r : Represents p l) where
  -- `add` implements its contract: on a pool that represents a list of entries it returns what
  -- the contract returns and leaves a pool that represents the contract's list. In particular a
  -- replacement that pays the bump is never refused for the quota or the size.
  pub add_refines :
      (uo : UserOperation) (base_fee : ℕ)
      → let s = spec_add env p.config p.next_sequence uo base_fee l in
        ((add env p uo base_fee).1 ≡ s.1) × Represents (add env p uo base_fee).0 s.0
  unfolding add spec_add
  add_refines uo base_fee = elim (Option-cases (find_hash (Op.hash env uo) l)) [
    | inr (e, fh) ↦ ground (arith, r.by_hash_is)
    | inl fh ↦ elim (Option-cases (find_id (Op.id uo) l)) [
      | inl fi ↦ ground (arith, r.by_hash_is, r.by_id_is, admit_new env p l r uo base_fee fh fi)
      | inr (old, fi) ↦ ground (
        arith,
        r.by_hash_is,
        r.by_id_is,
        min_bump-least_fee p.config old.uo.max_fee_per_gas,
        admit_replacement env p l r uo old fh fi base_fee,
      )
    ]
  ]

module _ (p : OperationPool) (l : List PoolEntry) (r : Represents p l) where
  -- `remove_by_hash` returns the entry with the hash and takes exactly it out of the pool.
  pub remove_by_hash_refines :
      (h : ℕ)
      → ((remove_by_hash p h).1 ≡ find_hash h l)
        × Represents (remove_by_hash p h).0 (spec_remove (find_hash h l) l)
  unfolding remove_by_hash spec_remove
  remove_by_hash_refines h = elim (Option-cases (find_hash h l)) [
    | inl f ↦ ground (arith, r.by_hash_is)
    | inr (e, f) ↦
        ground (arith, r.by_hash_is, hash-find_hash h l e f, remove_inner-Represents p l r e)
  ]

  -- `remove_by_id` returns what the abstract list finds under the identifier, and leaves a pool that
  -- represents the list without that entry.
  pub remove_by_id_refines :
      (i : UserOperationId)
      → ((remove_by_id p i).1 ≡ find_id i l)
        × Represents (remove_by_id p i).0 (spec_remove (find_id i l) l)
  unfolding remove_by_id spec_remove
  remove_by_id_refines i = elim (Option-cases (find_id i l)) [
    | inl f ↦ ground (arith, r.by_id_is)
    | inr (e, f) ↦
        ground
          (arith, r.by_id_is, find_hash-find_id i l e r.distinct f, remove_inner-Represents p l r e)
  ]
