-- ===== src/Provider/GasOracle/Median.antt =====
-- The suggested tip is a median (crates/provider/src/gas_oracle.rs, `median_priority_fee`).
use bunzo.Prelude.{
  ℕ, zero, suc, ◌+◌, ◌/◌, ◌≡◌, refl, ◌≤◌, ◌<◌, List, [], ◌∷◌, map, some, arith, ltb, length,
  get_elem?, keep, All, length-keep-le,
}
use bunzo.Provider.GasOracle.{
  ProviderGasOracle, BlockFees, insert_fee, sort_fees, median_priority_fee,
}

-- The numbers of fees below and above an amount.
abbrev pub below : ℕ → List ℕ → ℕ
below m fees = length (keep (λ a. ltb a m) fees)

abbrev pub above : ℕ → List ℕ → ℕ
above m fees = length (keep (λ a. ltb m a) fees)

abbrev Sorted : List ℕ → Type 0
Sorted [] = Unit
Sorted (a ∷ fees) = All (λ b. a ≤ b) fees × Sorted fees

length-insert_fee : (a : ℕ) (fees : List ℕ) → length (insert_fee a fees) ≡ suc (length fees)
unfolding insert_fee
length-insert_fee a [] = refl
length-insert_fee a (b ∷ fees) = ground (arith, length-insert_fee a fees)

below-insert_fee : (m a : ℕ) (fees : List ℕ) → below m (insert_fee a fees) ≡ below m (a ∷ fees)
unfolding insert_fee
below-insert_fee m a [] = refl
below-insert_fee m a (b ∷ fees) = ground (arith, below-insert_fee m a fees)

above-insert_fee : (m a : ℕ) (fees : List ℕ) → above m (insert_fee a fees) ≡ above m (a ∷ fees)
unfolding insert_fee
above-insert_fee m a [] = refl
above-insert_fee m a (b ∷ fees) = ground (arith, above-insert_fee m a fees)

All-insert_fee :
    (c a : ℕ) (fees : List ℕ) → c ≤ a → All (λ b. c ≤ b) fees → All (λ b. c ≤ b) (insert_fee a fees)
unfolding insert_fee
All-insert_fee c a [] h all = (h, tt)
All-insert_fee c a (b ∷ fees) h all = ground (arith, All-insert_fee c a fees h all.1)

All-le : (c a : ℕ) (fees : List ℕ) → c ≤ a → All (λ b. a ≤ b) fees → All (λ b. c ≤ b) fees
All-le c a [] h all = tt
All-le c a (b ∷ fees) h all = (omega (arith, h, all.0), All-le c a fees h all.1)

insert_fee-Sorted : (a : ℕ) (fees : List ℕ) → Sorted fees → Sorted (insert_fee a fees)
unfolding insert_fee
insert_fee-Sorted a [] s = (tt, tt)
insert_fee-Sorted a (b ∷ fees) s =
    ground (arith, insert_fee-Sorted a fees s.1, All-le a b fees, All-insert_fee b a fees)

sort_fees-Sorted : (fees : List ℕ) → Sorted (sort_fees fees)
unfolding sort_fees
sort_fees-Sorted [] = tt
sort_fees-Sorted (a ∷ fees) = insert_fee-Sorted a (sort_fees fees) (sort_fees-Sorted fees)

length-sort_fees : (fees : List ℕ) → length (sort_fees fees) ≡ length fees
unfolding sort_fees
length-sort_fees [] = refl
length-sort_fees (a ∷ fees) =
    omega (arith, length-insert_fee a (sort_fees fees), length-sort_fees fees)

below-sort_fees : (m : ℕ) (fees : List ℕ) → below m (sort_fees fees) ≡ below m fees
unfolding sort_fees
below-sort_fees m [] = refl
below-sort_fees m (a ∷ fees) =
    ground (arith, below-insert_fee m a (sort_fees fees), below-sort_fees m fees)

above-sort_fees : (m : ℕ) (fees : List ℕ) → above m (sort_fees fees) ≡ above m fees
unfolding sort_fees
above-sort_fees m [] = refl
above-sort_fees m (a ∷ fees) =
    ground (arith, above-insert_fee m a (sort_fees fees), above-sort_fees m fees)

none_below : (m : ℕ) (fees : List ℕ) → All (λ b. m ≤ b) fees → below m fees ≡ 0
none_below m [] all = refl
none_below m (a ∷ fees) all = ground (arith, none_below m fees all.1)

All-get_elem? :
    (c i m : ℕ) (fees : List ℕ) → All (λ b. c ≤ b) fees → get_elem? fees i ≡ some m → c ≤ m
All-get_elem? c i m [] all h = ground arith
All-get_elem? c zero m (a ∷ fees) all h = ground arith
All-get_elem? c (suc i) m (a ∷ fees) all h = All-get_elem? c i m fees all.1 h

-- In a sorted list at most `i` elements lie below the one at position `i`, and at most those that
-- follow it lie above.
ranks :
    (i m : ℕ) (fees : List ℕ)
    → Sorted fees
    → get_elem? fees i ≡ some m
    → (below m fees ≤ i) × (above m fees + suc i ≤ length fees)
ranks i m [] s h = ground arith
ranks zero m (a ∷ fees) s h =
    ground (arith, none_below a fees s.0, length-keep-le (λ b. ltb a b) fees)
ranks (suc i) m (a ∷ fees) s h =
    ground (arith, ranks i m fees s.1 h, All-get_elem? a i m fees s.0 h)

length-map_fee :
    (history : List BlockFees) → length (map (λ b. b.priority_fee) history) ≡ length history
length-map_fee [] = refl
length-map_fee (b ∷ history) = omega (arith, length-map_fee history)

found : (i : ℕ) (fees : List ℕ) → i < length fees → (m : ℕ) × (get_elem? fees i ≡ some m)
found i [] h = ground arith
found zero (a ∷ fees) h = (a, refl)
found (suc i) (a ∷ fees) h = found i fees (omega (arith, h))

-- When the history holds a block, the oracle has a median tip: at most half of the blocks have a
-- lower tip, and at most half have a higher one.
pub median_priority_fee_lem :
    (o : ProviderGasOracle)
    → 0 < length o.fee_history
    → let fees = map (λ b. b.priority_fee) o.fee_history in
      (m : ℕ) × (median_priority_fee o ≡ some m)
      × (below m fees ≤ length o.fee_history / 2)
      × (above m fees ≤ length o.fee_history / 2)
unfolding median_priority_fee
median_priority_fee_lem o some_block =
    let fees = map (λ b. b.priority_fee) o.fee_history in
    let same = length-sort_fees fees in
    let same' = length-map_fee o.fee_history in
    let (m, e) =
      found (length (sort_fees fees) / 2) (sort_fees fees)
        (omega (arith, same, same', some_block)) in
    let (low, high) =
      ranks (length (sort_fees fees) / 2) m (sort_fees fees) (sort_fees-Sorted fees) e in
    (
      m,
      e,
      omega (arith, low, same, same', below-sort_fees m fees),
      omega (arith, high, same, same', above-sort_fees m fees),
    )
