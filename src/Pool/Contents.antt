-- ===== src/Pool/Contents.antt =====
-- The abstract pool: a list of entries with distinct hashes and distinct identifiers. The indices,
-- the ordered set and the counters of crates/pool/src/pool.rs are functions of it.
use bunzo.Prelude.{
  ℕ, suc, ◌==◌, ◌≡◌, refl, ap, List, [], ◌∷◌, ite, Option, none, some, arith, ℕ_discrete, length,
  if◌then◌else◌,
}
use bunzo.Prelude.Maps.{HashMap, get, get-remove}
use bunzo.Prelude.Maps
use bunzo.Types.UserOperation.Packing.{UserOperationId}
use bunzo.Pool.Entry.{PoolEntry, id_discrete, eq_of_cmp}
use bunzo.Pool.Ordered.{
  remove, sort, sort-IsSorted, Lacks, All-sort, remove-insert_self, remove-insert_ne,
}

unfoldable pub hash_index : List PoolEntry → HashMap ℕ PoolEntry
hash_index [] = []
hash_index (e ∷ l) = (e.hash, e) ∷ hash_index l

unfoldable pub id_index : List PoolEntry → HashMap UserOperationId PoolEntry
id_index [] = []
id_index (e ∷ l) = (e.id, e) ∷ id_index l

abbrev pub find_hash : ℕ → List PoolEntry → Option PoolEntry
find_hash h l = get ℕ_discrete h (hash_index l)

abbrev pub find_id : UserOperationId → List PoolEntry → Option PoolEntry
find_id i l = get id_discrete i (id_index l)

-- The list without the entry that has the hash.
unfoldable pub erase : ℕ → List PoolEntry → List PoolEntry
erase h [] = []
erase h (e ∷ l) = let rest = erase h l in ite (ℕ_discrete e.hash h) rest (e ∷ rest)

-- The number of entries of a sender.
unfoldable pub count : ℕ → List PoolEntry → ℕ
count s [] = 0
count s (e ∷ l) = let rest = count s l in if e.id.sender == s then suc rest else rest

abbrev pub Distinct : List PoolEntry → Type 0
Distinct [] = Unit
Distinct (e ∷ l) = (find_hash e.hash l ≡ none) × (find_id e.id l ≡ none) × Distinct l

pub remove-hash_index :
    (h : ℕ) (l : List PoolEntry) → Maps.remove ℕ_discrete h (hash_index l) ≡ hash_index (erase h l)
unfolding hash_index erase Maps.remove
remove-hash_index h [] = refl
remove-hash_index h (e ∷ l) = ground (arith, remove-hash_index h l)

pub find_hash-erase :
    (h k : ℕ) (l : List PoolEntry)
    → find_hash k (erase h l) ≡ ite (ℕ_discrete h k) none (find_hash k l)
find_hash-erase h k l =
    ground (arith, remove-hash_index h l, get-remove ℕ_discrete h k (hash_index l))

-- What is found has the hash that was looked for.
pub hash-find_hash :
    (h : ℕ) (l : List PoolEntry) (e : PoolEntry) → find_hash h l ≡ some e → e.hash ≡ h
unfolding hash_index get
hash-find_hash h [] e f = cc
hash-find_hash h (x ∷ l) e f = ground (arith, hash-find_hash h l e)

pub id-find_id :
    (i : UserOperationId) (l : List PoolEntry) (e : PoolEntry) → find_id i l ≡ some e → e.id ≡ i
unfolding id_index get
id-find_id i [] e f = cc
id-find_id i (x ∷ l) e f = ground (arith, id-find_id i l e)

-- The two indices hold the same entries.
pub find_id-find_hash :
    (h : ℕ) (l : List PoolEntry) (e : PoolEntry)
    → Distinct l
    → find_hash h l ≡ some e
    → find_id e.id l ≡ some e
unfolding hash_index id_index get
find_id-find_hash h [] e d f = cc
find_id-find_hash h (x ∷ l) e d f = ground (arith, find_id-find_hash h l e d.2)

pub find_hash-find_id :
    (i : UserOperationId) (l : List PoolEntry) (e : PoolEntry)
    → Distinct l
    → find_id i l ≡ some e
    → find_hash e.hash l ≡ some e
unfolding hash_index id_index get
find_hash-find_id i [] e d f = cc
find_hash-find_id i (x ∷ l) e d f = ground (arith, find_hash-find_id i l e d.2)

erase_absent : (h : ℕ) (l : List PoolEntry) → find_hash h l ≡ none → erase h l ≡ l
unfolding hash_index erase get
erase_absent h [] f = refl
erase_absent h (x ∷ l) f = ground (arith, erase_absent h l)

pub Lacks-of_none : (h : ℕ) (l : List PoolEntry) → find_hash h l ≡ none → Lacks h l
unfolding hash_index get
Lacks-of_none h [] f = tt
Lacks-of_none h (x ∷ l) f = ground (arith, Lacks-of_none h l)

pub remove-id_index :
    (h : ℕ) (l : List PoolEntry) (e : PoolEntry)
    → Distinct l
    → find_hash h l ≡ some e
    → Maps.remove id_discrete e.id (id_index l) ≡ id_index (erase h l)
unfolding hash_index id_index erase get Maps.remove
remove-id_index h [] e d f = cc
remove-id_index h (x ∷ l) e d f = ground (
  arith,
  remove-id_index h l e d.2,
  find_id-find_hash h l e d.2,
  Maps.remove_absent id_discrete x.id (id_index l),
  erase_absent h l,
)

find_id-erase-none :
    (h : ℕ) (i : UserOperationId) (l : List PoolEntry)
    → find_id i l ≡ none
    → find_id i (erase h l) ≡ none
unfolding id_index erase get
find_id-erase-none h i [] f = refl
find_id-erase-none h i (x ∷ l) f = ground (arith, find_id-erase-none h i l)

pub erase-Distinct : (h : ℕ) (l : List PoolEntry) → Distinct l → Distinct (erase h l)
unfolding erase
erase-Distinct h [] d = tt
erase-Distinct h (x ∷ l) d =
    ground (arith, erase-Distinct h l d.2, find_hash-erase h x.hash l, find_id-erase-none h x.id l)

-- Removing an entry of the list from the ordered set gives the ordered set of the rest.
pub remove-sort :
    (h : ℕ) (l : List PoolEntry) (e : PoolEntry)
    → Distinct l
    → find_hash h l ≡ some e
    → remove e (sort l) ≡ sort (erase h l)
unfolding hash_index get erase sort
remove-sort h [] e d f = cc
remove-sort h (x ∷ l) e d f = ground (
  arith,
  remove-sort h l e d.2,
  hash-find_hash h l e,
  erase_absent h l,
  sort-IsSorted l,
  eq_of_cmp e x,
  remove-insert_self x (sort l),
  remove-insert_ne e x (sort l),
  All-sort (λ y. ¬ (y.hash ≡ x.hash)) l (Lacks-of_none x.hash l d.0),
)

pub count-erase :
    (s h : ℕ) (l : List PoolEntry) (e : PoolEntry)
    → Distinct l
    → find_hash h l ≡ some e
    → count s l ≡ (if e.id.sender == s then suc (count s (erase h l)) else count s (erase h l))
unfolding hash_index get erase count
count-erase s h [] e d f = cc
count-erase s h (x ∷ l) e d f = ground (arith, count-erase s h l e d.2, erase_absent h l)

pub length-erase :
    (h : ℕ) (l : List PoolEntry) (e : PoolEntry)
    → Distinct l
    → find_hash h l ≡ some e
    → suc (length (erase h l)) ≡ length l
unfolding hash_index get erase
length-erase h [] e d f = cc
length-erase h (x ∷ l) e d f = ground (arith, length-erase h l e d.2, erase_absent h l)

pub length-hash_index : (l : List PoolEntry) → length (hash_index l) ≡ length l
unfolding hash_index
length-hash_index [] = refl
length-hash_index (x ∷ l) = ap suc (length-hash_index l)
