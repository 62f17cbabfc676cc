-- ===== src/Pool/Best.antt =====
-- The selection of operations for a bundle (crates/pool/src/pool.rs, `best_operations`).
use bunzo.Prelude.{
  ℕ, suc, zero, min, ◌≤◌, ◌<◌, ◌≡◌, refl, ◌⊎◌, inl, inr, List, [], ◌∷◌, arith, length, All, All-In,
  In, take, length-take, take_all,
}
use bunzo.Pool.Entry.{PoolEntry, Before, cmp, eq_of_cmp}
use bunzo.Pool.Ordered.{insert, sort, IsSorted, sort-IsSorted, Lacks, All-sort}
use bunzo.Pool.Contents.{Distinct, Lacks-of_none}
use bunzo.Pool.Store.{OperationPool, best_operations}
use bunzo.Pool.Represents.{Represents}

In-insert : (a e : PoolEntry) (xs : List PoolEntry) → In a (insert e xs) → (a ≡ e) ⊎ In a xs
unfolding insert
In-insert a e [] m = m
In-insert a e (x ∷ xs) m = ground (arith, In-insert a e xs)

In-sort : (a : PoolEntry) (l : List PoolEntry) → In a (sort l) → In a l
unfolding sort
In-sort a [] m = m
In-sort a (x ∷ l) m = ground (arith, In-insert a x (sort l) m, In-sort a l)

insert-In_old : (a e : PoolEntry) (xs : List PoolEntry) → In a xs → In a (insert e xs)
unfolding insert
insert-In_old a e [] m = elim m [ ]
insert-In_old a e (x ∷ xs) m = ground (arith, insert-In_old a e xs)

insert-In_new : (e : PoolEntry) (xs : List PoolEntry) → Lacks e.hash xs → In e (insert e xs)
unfolding insert
insert-In_new e [] k = inl refl
insert-In_new e (x ∷ xs) k = ground (arith, eq_of_cmp e x, insert-In_new e xs k.1)

length-insert :
    (e : PoolEntry) (xs : List PoolEntry) → Lacks e.hash xs → length (insert e xs) ≡ suc (length xs)
unfolding insert
length-insert e [] k = refl
length-insert e (x ∷ xs) k = ground (arith, eq_of_cmp e x, length-insert e xs k.1)

Lacks-sort : (e : PoolEntry) (l : List PoolEntry) → Distinct (e ∷ l) → Lacks e.hash (sort l)
Lacks-sort e l d = All-sort (λ y. ¬ (y.hash ≡ e.hash)) l (Lacks-of_none e.hash l d.0)

pub length-sort : (l : List PoolEntry) → Distinct l → length (sort l) ≡ length l
unfolding sort
length-sort [] d = refl
length-sort (e ∷ l) d =
    omega (arith, length-insert e (sort l) (Lacks-sort e l d), length-sort l d.2)

sort-In : (a : PoolEntry) (l : List PoolEntry) → Distinct l → In a l → In a (sort l)
unfolding sort
sort-In a [] d m = m
sort-In a (e ∷ l) d (inl h) = rw h (insert-In_new e (sort l) (Lacks-sort e l d))
sort-In a (e ∷ l) d (inr m) = insert-In_old a e (sort l) (sort-In a l d.2 m)

take-IsSorted : (n : ℕ) (xs : List PoolEntry) → IsSorted xs → IsSorted (take n xs)
take-IsSorted zero xs s = tt
take-IsSorted (suc n) [] s = tt
take-IsSorted (suc n) (x ∷ xs) s = (take-All n xs s.0, take-IsSorted n xs s.1)
  where
    take-All : (m : ℕ) (ys : List PoolEntry) → All (Before x) ys → All (Before x) (take m ys)
    take-All zero ys k = tt
    take-All (suc m) [] k = tt
    take-All (suc m) (y ∷ ys) k = (k.0, take-All m ys k.1)

-- An element of a sorted list is in a prefix, or all of the prefix comes before it.
take_split :
    (n : ℕ) (xs : List PoolEntry) (a : PoolEntry)
    → IsSorted xs
    → In a xs
    → In a (take n xs) ⊎ All (λ b. Before b a) (take n xs)
take_split zero xs a s m = inr tt
take_split (suc n) [] a s m = elim m [ ]
take_split (suc n) (x ∷ xs) a s (inl h) = inl (inl h)
take_split (suc n) (x ∷ xs) a s (inr m) = elim (take_split n xs a s.1 m) [
  | inl taken ↦ inl (inr taken)
  | inr before ↦ inr (All-In (Before x) xs a s.0 m, before)
]

In-take : (n : ℕ) (xs : List PoolEntry) (a : PoolEntry) → In a (take n xs) → In a xs
In-take zero xs a m = elim m [ ]
In-take (suc n) [] a m = m
In-take (suc n) (x ∷ xs) a (inl h) = inl h
In-take (suc n) (x ∷ xs) a (inr m) = inr (In-take n xs a m)

-- The first of two operations has the higher gas price; or the prices are equal and it has the lower
-- sequence number, that is, it was added earlier; or these are equal too and it has the lower hash.
abbrev pub GoesFirst : PoolEntry → PoolEntry → Type 0
GoesFirst a b =
    (b.submit_gas_price < a.submit_gas_price)
    ⊎ ((a.submit_gas_price ≡ b.submit_gas_price)
        × ((a.sequence < b.sequence) ⊎ ((a.sequence ≡ b.sequence) × (a.hash < b.hash))))

abbrev pub BestFirst : List PoolEntry → Type 0
BestFirst [] = Unit {0}
BestFirst (x ∷ xs) = All (GoesFirst x) xs × BestFirst xs

Before-GoesFirst : (a b : PoolEntry) → Before a b → GoesFirst a b
unfolding cmp
Before-GoesFirst a b h = ground arith

All-GoesFirst : (x : PoolEntry) (xs : List PoolEntry) → All (Before x) xs → All (GoesFirst x) xs
All-GoesFirst x [] h = tt
All-GoesFirst x (y ∷ ys) h = (Before-GoesFirst x y h.0, All-GoesFirst x ys h.1)

All-GoesFirst_of :
    (xs : List PoolEntry) (a : PoolEntry) → All (λ b. Before b a) xs → All (λ b. GoesFirst b a) xs
All-GoesFirst_of [] a h = tt
All-GoesFirst_of (y ∷ ys) a h = (Before-GoesFirst y a h.0, All-GoesFirst_of ys a h.1)

IsSorted-BestFirst : (xs : List PoolEntry) → IsSorted xs → BestFirst xs
IsSorted-BestFirst [] s = tt
IsSorted-BestFirst (x ∷ xs) s = (All-GoesFirst x xs s.0, IsSorted-BestFirst xs s.1)

module _ (p : OperationPool) (l : List PoolEntry) (r : Represents p l) (max_count : ℕ) where
  -- `best_operations` returns as many operations as were asked for and exist, all from the pool, the
  -- highest gas price first, among equal prices the one that was added first, and among these the
  -- lowest hash; and an operation of the pool that it leaves out comes after every one that it
  -- returns, by the same order.
  pub best_operations_best :
      (a : PoolEntry)
      → let best = best_operations p max_count in
        (length best ≡ min max_count (length l))
        × BestFirst best
        × (In a best → In a l)
        × (In a l → In a best ⊎ All (λ b. GoesFirst b a) best)
  unfolding best_operations
  best_operations_best a =
      let sorted = sort-IsSorted l in
      rw r.ordered_is (
        (
          omega (arith, length-take max_count (sort l), length-sort l r.distinct),
          IsSorted-BestFirst (take max_count (sort l)) (take-IsSorted max_count (sort l) sorted),
          λ m. In-sort a l (In-take max_count (sort l) a m),
          λ m. elim (take_split max_count (sort l) a sorted (sort-In a l r.distinct m)) [
            | inl taken ↦ inl taken
            | inr before ↦ inr (All-GoesFirst_of (take max_count (sort l)) a before)
          ],
        ))

-- A request for as many operations as there are returns them all.
pub best_operations_all :
    (p : OperationPool) (l : List PoolEntry) (n : ℕ) (a : PoolEntry)
    → Represents p l
    → length l ≤ n
    → In a l
    → In a (best_operations p n)
unfolding best_operations
best_operations_all p l n a r few m =
    rw (r.ordered_is, take_all n (sort l) (omega (arith, length-sort l r.distinct, few)))
      (sort-In a l r.distinct m)
