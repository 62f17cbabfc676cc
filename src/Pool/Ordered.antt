-- ===== src/Pool/Ordered.antt =====
-- The standard library's `BTreeSet<OrderEntry>` as a list in increasing order
-- (crates/pool/src/pool.rs, the field `ordered`), and what inserting and removing do to it.
use bunzo.Prelude.{ℕ, Ordering, ◌≡◌, refl, List, [], ◌∷◌, arith, All}
use bunzo.Pool.Entry.{PoolEntry, cmp, Before, cmp_self, eq_of_cmp, lt_of_gt, Before-trans, eq_join}

-- An equal element is not replaced.
unfoldable pub insert : PoolEntry → List PoolEntry → List PoolEntry
insert e [] = e ∷ []
insert e (x ∷ xs) =
    let rest = insert e xs in
    elim (cmp e x) [ Ordering.lt ↦ e ∷ x ∷ xs | Ordering.eq ↦ x ∷ xs | Ordering.gt ↦ x ∷ rest ]

unfoldable pub remove : PoolEntry → List PoolEntry → List PoolEntry
remove e [] = []
remove e (x ∷ xs) =
    let rest = remove e xs in
    elim (cmp e x) [ Ordering.lt ↦ x ∷ rest | Ordering.eq ↦ rest | Ordering.gt ↦ x ∷ rest ]

-- Strictly increasing.
abbrev pub IsSorted : List PoolEntry → Type 0
IsSorted [] = Unit
IsSorted (x ∷ xs) = All (Before x) xs × IsSorted xs

-- No element of the list has the hash.
abbrev pub Lacks : ℕ → List PoolEntry → Type 0
Lacks h = All (λ e. ¬ (e.hash ≡ h))

-- The ordered set of a list of entries.
unfoldable pub sort : List PoolEntry → List PoolEntry
sort [] = []
sort (e ∷ l) = insert e (sort l)

All-Before-trans :
    (a b : PoolEntry) (xs : List PoolEntry) → Before a b → All (Before b) xs → All (Before a) xs
All-Before-trans a b [] h k = tt
All-Before-trans a b (x ∷ xs) h k = (Before-trans a b x h k.0, All-Before-trans a b xs h k.1)

module _ (P : PoolEntry → Type 0) where
  pub All-insert : (e : PoolEntry) (xs : List PoolEntry) → P e → All P xs → All P (insert e xs)
  unfolding insert
  All-insert e [] h k = (h, tt)
  All-insert e (x ∷ xs) h k = ground (arith, All-insert e xs h k.1)

  pub All-remove : (e : PoolEntry) (xs : List PoolEntry) → All P xs → All P (remove e xs)
  unfolding remove
  All-remove e [] k = tt
  All-remove e (x ∷ xs) k = ground (arith, All-remove e xs k.1)

  pub All-sort : (l : List PoolEntry) → All P l → All P (sort l)
  unfolding sort
  All-sort [] k = tt
  All-sort (x ∷ l) k = All-insert x (sort l) k.0 (All-sort l k.1)

pub insert-IsSorted : (e : PoolEntry) (xs : List PoolEntry) → IsSorted xs → IsSorted (insert e xs)
unfolding insert
insert-IsSorted e [] s = (tt, tt)
insert-IsSorted e (x ∷ xs) s = ground (
  arith,
  All-Before-trans e x xs,
  insert-IsSorted e xs s.1,
  lt_of_gt e x,
  All-insert (Before x) e xs,
)

pub remove-IsSorted : (e : PoolEntry) (xs : List PoolEntry) → IsSorted xs → IsSorted (remove e xs)
unfolding remove
remove-IsSorted e [] s = tt
remove-IsSorted e (x ∷ xs) s =
    ground (arith, remove-IsSorted e xs s.1, All-remove (Before x) e xs s.0)

pub sort-IsSorted : (l : List PoolEntry) → IsSorted (sort l)
unfolding sort
sort-IsSorted [] = tt
sort-IsSorted (e ∷ l) = insert-IsSorted e (sort l) (sort-IsSorted l)

-- An element below the whole set is put in front.
insert_front : (e : PoolEntry) (xs : List PoolEntry) → All (Before e) xs → insert e xs ≡ e ∷ xs
unfolding insert
insert_front e [] k = refl
insert_front e (x ∷ xs) k = ground arith

-- A removal passes an insertion of another element.
pub remove-insert_ne :
    (e x : PoolEntry) (xs : List PoolEntry)
    → IsSorted xs
    → ¬ (cmp e x ≡ Ordering.eq)
    → remove e (insert x xs) ≡ insert x (remove e xs)
unfolding insert remove
remove-insert_ne e x [] s h = ground arith
remove-insert_ne e x (y ∷ ys) s h = ground (
  arith,
  remove-insert_ne e x ys s.1,
  eq_join e x y,
  All-Before-trans x y ys,
  All-remove (Before x) e ys,
  insert_front x (remove e ys),
)

remove_absent : (e : PoolEntry) (xs : List PoolEntry) → Lacks e.hash xs → remove e xs ≡ xs
unfolding remove
remove_absent e [] k = refl
remove_absent e (x ∷ xs) k = ground (arith, remove_absent e xs k.1, eq_of_cmp e x)

pub remove-insert_self :
    (e : PoolEntry) (xs : List PoolEntry)
    → IsSorted xs
    → Lacks e.hash xs
    → remove e (insert e xs) ≡ xs
unfolding insert remove
remove-insert_self e [] s k = ground (arith, cmp_self e)
remove-insert_self e (x ∷ xs) s k =
    ground (arith, cmp_self e, eq_of_cmp e x, remove-insert_self e xs s.1, remove_absent e xs)
