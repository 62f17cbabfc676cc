-- ===== src/Pool/Represents.antt =====
-- When the fields of a pool are those of an abstract list of entries
-- (crates/pool/src/pool.rs, `OperationPool`), and that removals and insertions keep it so.
use bunzo.Prelude.{
  ℕ, suc, ◌≤◌, ◌<◌, ◌==◌, ◌≡◌, refl, List, [], ◌∷◌, Option, none, some, arith, ℕ_discrete, length,
  if◌then◌else◌,
}
use bunzo.Prelude.Words.{u64_mod}
use bunzo.Prelude.Maps.{HashMap, get, get-remove, get-insert, remove_absent}
use bunzo.Prelude.Maps
use bunzo.Types.UserOperation.Packing.{UserOperation, Hasher}
use bunzo.Types.UserOperation as Op
use bunzo.Pool.Entry.{PoolEntry, PoolConfig, id_discrete, new_entry}
use bunzo.Pool.Ordered.{sort}
use bunzo.Pool.Contents.{
  hash_index, id_index, find_hash, find_id, erase, count, Distinct, remove-hash_index,
  remove-id_index, erase-Distinct, remove-sort, count-erase, length-erase, length-hash_index,
}
use bunzo.Pool.Store.{OperationPool, new, size, decrement, increment, remove_inner, store, clear}

-- The entry of a counter: none for zero.
abbrev pub nonzero : ℕ → Option ℕ
nonzero n = if n == 0 then none else some n

pub record Represents (p : OperationPool) (l : List PoolEntry) : Type 0 where
  pub by_hash_is : p.by_hash ≡ hash_index l
  pub by_id_is : p.by_id ≡ id_index l
  pub ordered_is : p.ordered ≡ sort l
  pub counted : (s : ℕ) → get ℕ_discrete s p.sender_count ≡ nonzero (count s l)
  pub distinct : Distinct l
  pub room : length l ≤ p.config.max_size
  pub quota : (s : ℕ) → count s l ≤ p.config.max_ops_per_sender
  pub quota_fits : p.config.max_ops_per_sender < u64_mod

pub new-Represents : (c : PoolConfig) → c.max_ops_per_sender < u64_mod → Represents (new c) []
unfolding new hash_index id_index sort count get
new-Represents c h = record {
  by_hash_is = refl;
  by_id_is = refl;
  ordered_is = refl;
  counted = λ s. refl;
  distinct = tt;
  room = omega arith;
  quota = λ s. omega arith;
  quota_fits = h;
}

pub clear-Represents :
    (p : OperationPool) (l : List PoolEntry) → Represents p l → Represents (clear p) []
unfolding clear hash_index id_index sort count get
clear-Represents p l r = record {
  by_hash_is = refl;
  by_id_is = refl;
  ordered_is = refl;
  counted = λ s. refl;
  distinct = tt;
  room = omega arith;
  quota = λ s. omega arith;
  quota_fits = r.quota_fits;
}

pub size-length : (p : OperationPool) (l : List PoolEntry) → Represents p l → size p ≡ length l
unfolding size
size-length p l r = ground (arith, r.by_hash_is, length-hash_index l)

get-decrement :
    (s t n : ℕ) (m : HashMap ℕ ℕ)
    → get ℕ_discrete s m ≡ nonzero (suc n)
    → get ℕ_discrete t (decrement s m) ≡ (if s == t then nonzero n else get ℕ_discrete t m)
unfolding decrement
get-decrement s t n m h = ground (arith, get-remove ℕ_discrete s t m, get-insert ℕ_discrete s t n m)

get-increment :
    (s t n : ℕ) (m : HashMap ℕ ℕ)
    → get ℕ_discrete s m ≡ nonzero n
    → suc n < u64_mod
    → get ℕ_discrete t (increment s m) ≡ (if s == t then some (suc n) else get ℕ_discrete t m)
unfolding increment
get-increment s t n m h small = ground (arith, get-insert ℕ_discrete s t (suc n) m)

module _ (p : OperationPool) (l : List PoolEntry) (r : Represents p l) where
  remove_inner_counted :
      (e : PoolEntry)
      → find_hash e.hash l ≡ some e
      → (t : ℕ)
      → get ℕ_discrete t (decrement e.id.sender p.sender_count) ≡ nonzero (count t (erase e.hash l))
  remove_inner_counted e f t = ground (
    arith,
    r.counted e.id.sender,
    r.counted t,
    count-erase e.id.sender e.hash l e r.distinct f,
    count-erase t e.hash l e r.distinct f,
    get-decrement e.id.sender t (count e.id.sender (erase e.hash l)) p.sender_count,
  )

  -- `remove_inner` takes an entry of the pool out of all four structures.
  pub remove_inner-Represents :
      (e : PoolEntry) → find_hash e.hash l ≡ some e → Represents (remove_inner p e) (erase e.hash l)
  unfolding remove_inner
  remove_inner-Represents e f = record {
    by_hash_is = rw r.by_hash_is (remove-hash_index e.hash l);
    by_id_is = rw r.by_id_is (remove-id_index e.hash l e r.distinct f);
    ordered_is = rw r.ordered_is (remove-sort e.hash l e r.distinct f);
    counted = remove_inner_counted e f;
    distinct = erase-Distinct e.hash l r.distinct;
    room = omega (arith, length-erase e.hash l e r.distinct f, r.room);
    quota = λ s. ground (arith, r.quota s, count-erase s e.hash l e r.distinct f);
    quota_fits = r.quota_fits;
  }

  -- The insertions of `add` put a new entry into all four structures.
  pub store-Represents :
      (env : Hasher) (uo : UserOperation) (base_fee : ℕ)
      → find_hash (Op.hash env uo) l ≡ none
      → find_id (Op.id uo) l ≡ none
      → count (Op.id uo).sender l < p.config.max_ops_per_sender
      → length l < p.config.max_size
      → Represents (store env p uo base_fee) (new_entry env uo base_fee p.next_sequence ∷ l)
  unfolding store new_entry hash_index id_index sort count Maps.insert
  store-Represents env uo base_fee fh fi quota room = record {
    by_hash_is =
        ground (arith, r.by_hash_is, remove_absent ℕ_discrete (Op.hash env uo) (hash_index l));
    by_id_is = ground (arith, r.by_id_is, remove_absent id_discrete (Op.id uo) (id_index l));
    ordered_is = ground (arith, r.ordered_is);
    counted = λ t. ground (
      arith,
      r.counted (Op.id uo).sender,
      r.counted t,
      r.quota_fits,
      get-increment (Op.id uo).sender t (count (Op.id uo).sender l) p.sender_count,
    );
    distinct = (fh, fi, r.distinct);
    room = omega arith;
    quota = λ s. ground (arith, r.quota s);
    quota_fits = r.quota_fits;
  }
