-- ===== src/Pool/Sequence.antt =====
-- The highest nonce sequence of a sender under a nonce key (crates/pool/src/pool.rs,
-- `max_nonce_sequence`).
use bunzo.Prelude.{
  ℕ, ◌≤◌, ◌≡◌, refl, ◌⊎◌, inl, inr, ◌≢◌, List, [], ◌∷◌, none, some, arith, In, unwrap_or,
  Option-cases,
}
use bunzo.Types.UserOperation.Nonce.{nonce_key, nonce_sequence}
use bunzo.Pool.Entry.{PoolEntry}
use bunzo.Pool.Contents.{id_index}
use bunzo.Pool.Store.{OperationPool, max_sequence, max_nonce_sequence}
use bunzo.Pool.Represents.{Represents}

-- The entry is one of the sender's, under the nonce key.
abbrev pub Matches : ℕ → ℕ → PoolEntry → Type 0
Matches sender key e = (e.id.sender ≡ sender) × (nonce_key e.id ≡ key)

max_sequence_above :
    (sender key : ℕ) (l : List PoolEntry) (e : PoolEntry)
    → In e l
    → Matches sender key e
    → (max_sequence sender key (id_index l) ≢ none)
      × (nonce_sequence e.id ≤ unwrap_or (max_sequence sender key (id_index l)) 0)
unfolding max_sequence id_index
max_sequence_above sender key [] e i h = elim i [ ]
max_sequence_above sender key (x ∷ l) e (inl same) h = ground arith
max_sequence_above sender key (x ∷ l) e (inr i) h =
    ground (arith, max_sequence_above sender key l e i h)

-- The value comes from the head of the list or from the rest.
max_sequence_head :
    (sender key : ℕ) (x : PoolEntry) (l : List PoolEntry) (m : ℕ)
    → max_sequence sender key (id_index (x ∷ l)) ≡ some m
    → (Matches sender key x × (nonce_sequence x.id ≡ m))
      ⊎ (max_sequence sender key (id_index l) ≡ some m)
unfolding max_sequence id_index
max_sequence_head sender key x l m h = elim (Option-cases (max_sequence sender key (id_index l))) [
  | inl e ↦ ground arith
  | inr (n, e) ↦ ground arith
]

max_sequence_attained :
    (sender key : ℕ) (l : List PoolEntry) (m : ℕ)
    → max_sequence sender key (id_index l) ≡ some m
    → (e : PoolEntry) × In e l × Matches sender key e × (nonce_sequence e.id ≡ m)
unfolding max_sequence id_index
max_sequence_attained sender key [] m h = cc
max_sequence_attained sender key (x ∷ l) m h = elim (max_sequence_head sender key x l m h) [
  | inl (fits, e) ↦ (x, inl refl, fits, e)
  | inr rest ↦
      let (e, i, fits, same) = max_sequence_attained sender key l m rest in (e, inr i, fits, same)
]

module _ (p : OperationPool) (l : List PoolEntry) (r : Represents p l) (sender key : ℕ) where
  -- `max_nonce_sequence` is the maximum over the pool: if it is none, no entry of the pool has
  -- the sender and the nonce key; if it is a number, some entry with them has that sequence, and
  -- none has a higher one.
  pub max_nonce_sequence_max :
      ((max_nonce_sequence p sender key ≡ none) → (e : PoolEntry) → In e l → ¬ Matches sender key e)
      × ((m : ℕ)
          → max_nonce_sequence p sender key ≡ some m
          → ((e : PoolEntry) × In e l × Matches sender key e × (nonce_sequence e.id ≡ m))
            × ((e : PoolEntry) → In e l → Matches sender key e → nonce_sequence e.id ≤ m))
  unfolding max_nonce_sequence
  max_nonce_sequence_max = rw r.by_id_is (
    (λ missing e i fits. (max_sequence_above sender key l e i fits).0 missing),
    λ m found. (
      max_sequence_attained sender key l m found,
      λ e i fits. ground (arith, (max_sequence_above sender key l e i fits).1),
    ),
  )
