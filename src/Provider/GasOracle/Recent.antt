-- ===== src/Provider/GasOracle/Recent.antt =====
-- The history of the gas oracle (crates/provider/src/gas_oracle.rs, `refresh_if_needed`).
use bunzo.Prelude.{
  ℕ, zero, suc, ◌-◌, ◌≡◌, refl, ◌≤◌, ◌<◌, ◌∙◌, List, [], ◌∷◌, ◌++◌, arith, leb, length, drop, All,
  Bool-cases, ap, inl, inr, ◌⊎◌,
}
use bunzo.Prelude.Result.{ok, Result-cases}
use bunzo.Provider.GasOracle.{
  ProviderGasOracle, BlockFees, EvmProvider, new, trim, push_block, refresh_if_needed,
}

module _ {A : Type 0} where
  drop_none : (n : ℕ) (xs : List A) → n ≡ 0 → drop n xs ≡ xs
  drop_none zero xs h = refl
  drop_none (suc n) xs h = ground arith

  drop_nil : (n : ℕ) → drop {A = A} n [] ≡ []
  drop_nil zero = refl
  drop_nil (suc n) = refl

  length-drop : (n : ℕ) (xs : List A) → length (drop n xs) ≡ length xs - n
  length-drop zero xs = omega arith
  length-drop (suc n) [] = omega arith
  length-drop (suc n) (x ∷ xs) = omega (arith, length-drop n xs)

  All-drop : (P : A → Type 0) (n : ℕ) (xs : List A) → All P xs → All P (drop n xs)
  All-drop P zero xs h = h
  All-drop P (suc n) [] h = tt
  All-drop P (suc n) (x ∷ xs) h = All-drop P n xs h.1

drop-suc :
    (n k : ℕ) (b : BlockFees) (history : List BlockFees)
    → n ≡ suc k
    → drop n (b ∷ history) ≡ drop k history
drop-suc n k b history h = rw h refl

-- The fuel is enough: the loop leaves the newest `size` blocks.
trim-drop :
    (fuel size : ℕ) (history : List BlockFees)
    → length history ≤ fuel
    → trim fuel size history ≡ drop (length history - size) history
unfolding trim
trim-drop zero size [] h = rw (drop_nil {A = BlockFees} (0 - size)) refl
trim-drop (suc fuel) size [] h = rw (drop_nil {A = BlockFees} (0 - size)) refl
trim-drop zero size (b ∷ history) h = ground arith
trim-drop (suc fuel) size (b ∷ history) h = ground (
  arith,
  trim-drop fuel size history (omega (arith, h)),
  drop_none (suc (length history) - size) (b ∷ history),
  drop-suc (suc (length history) - size) (length history - size) b history,
)

abbrev pub Ascending : List BlockFees → Type 0
Ascending [] = Unit
Ascending (b ∷ history) = All (λ c. b.block_number < c.block_number) history × Ascending history

-- The history holds no more blocks than it may, in ascending order, none newer than the last one.
pub record Recent (o : ProviderGasOracle) : Type 0 where
  pub short : length o.fee_history ≤ o.history_size
  pub ascending : Ascending o.fee_history
  pub known : All (λ b. b.block_number ≤ o.last_block) o.fee_history

pub new-Recent : Recent new
new-Recent = record { short = omega arith; ascending = tt; known = tt }

drop-Ascending : (n : ℕ) (history : List BlockFees) → Ascending history → Ascending (drop n history)
drop-Ascending zero history h = h
drop-Ascending (suc n) [] h = tt
drop-Ascending (suc n) (b ∷ history) h = drop-Ascending n history h.1

All-newer :
    (last : ℕ) (entry : BlockFees) (history : List BlockFees)
    → last < entry.block_number
    → All (λ b. b.block_number ≤ last) history
    → All (λ b. b.block_number ≤ entry.block_number) (history ++ (entry ∷ []))
All-newer last entry [] newer h = ground arith
All-newer last entry (b ∷ history) newer h = ground (arith, All-newer last entry history newer h.1)

All-before :
    (k : ℕ) (entry : BlockFees) (history : List BlockFees)
    → k < entry.block_number
    → All (λ b. k < b.block_number) history
    → All (λ b. k < b.block_number) (history ++ (entry ∷ []))
All-before k entry [] newer h = (newer, tt)
All-before k entry (b ∷ history) newer h = (h.0, All-before k entry history newer h.1)

append-Ascending :
    (last : ℕ) (entry : BlockFees) (history : List BlockFees)
    → last < entry.block_number
    → All (λ b. b.block_number ≤ last) history
    → Ascending history
    → Ascending (history ++ (entry ∷ []))
append-Ascending last entry [] newer known h = (tt, tt)
append-Ascending last entry (b ∷ history) newer known h = (
  All-before b.block_number entry history (omega (arith, newer, known.0)) h.0,
  append-Ascending last entry history newer known.1 h.1,
)

push_block-history :
    (o : ProviderGasOracle) (entry : BlockFees)
    → let history = o.fee_history ++ (entry ∷ []) in
      (push_block o entry.block_number entry.base_fee entry.priority_fee).fee_history
      ≡ drop (length history - o.history_size) history
unfolding push_block
push_block-history o entry =
    let history = o.fee_history ++ (entry ∷ []) in
    trim-drop (length history) o.history_size history (omega arith)

push_block-Recent :
    (o : ProviderGasOracle) (entry : BlockFees)
    → o.last_block < entry.block_number
    → Recent o
    → Recent (push_block o entry.block_number entry.base_fee entry.priority_fee)
unfolding push_block
push_block-Recent o entry newer r =
    let history = o.fee_history ++ (entry ∷ []) in
    let n = length history - o.history_size in
    let same = push_block-history o entry in
    record {
      short = rw same (omega (arith, length-drop n history));
      ascending = rw same (
          drop-Ascending n history
            (append-Ascending o.last_block entry o.fee_history newer r.known r.ascending));
      known = rw same (
          All-drop (λ b. b.block_number ≤ entry.block_number) n history
            (All-newer o.last_block entry o.fee_history newer r.known));
    }

refreshed :
    (node : EvmProvider) (o o' : ProviderGasOracle) (block : ℕ)
    → node.get_block_number ≡ ok block
    → refresh_if_needed node o ≡ ok o'
    → ((block ≤ o.last_block) × (o' ≡ o))
      ⊎ ((o.last_block < block)
          × (base_fee priority_fee : ℕ) × (node.get_base_fee ≡ ok base_fee)
          × (node.get_max_priority_fee ≡ ok priority_fee)
          × (o' ≡ push_block o block base_fee priority_fee))
unfolding refresh_if_needed
refreshed node o o' block at done = elim (Bool-cases (leb block o.last_block)) [
  | inl old ↦ inl (ground arith)
  | inr newer ↦ elim (Result-cases node.get_base_fee) [
    | inr (e, b) ↦ ground arith
    | inl (base_fee, b) ↦ elim (Result-cases node.get_max_priority_fee) [
      | inr (e, f) ↦ ground arith
      | inl (priority_fee, f) ↦ inr (ground arith, base_fee, priority_fee, b, f, ground arith)
    ]
  ]
]

-- A refresh that succeeds keeps the history short and in ascending order of the blocks. It changes
-- nothing unless the node is at a newer block than the last one; otherwise the block is appended
-- with the fees that the node answers, and the oldest ones beyond the history's size are dropped.
pub refresh_if_needed-Recent :
    (node : EvmProvider) (o o' : ProviderGasOracle) (block : ℕ)
    → Recent o
    → node.get_block_number ≡ ok block
    → refresh_if_needed node o ≡ ok o'
    → Recent o'
      × (block ≤ o.last_block → o' ≡ o)
      × (o.last_block < block
          → (entry : BlockFees) × (entry.block_number ≡ block)
            × (node.get_base_fee ≡ ok entry.base_fee)
            × (node.get_max_priority_fee ≡ ok entry.priority_fee)
            × (o'.last_block ≡ block)
            × let history = o.fee_history ++ (entry ∷ []) in
              o'.fee_history ≡ drop (length history - o.history_size) history)
unfolding push_block
refresh_if_needed-Recent node o o' block r at done = elim (refreshed node o o' block at done) [
  | inl (old, same) ↦ ground arith
  | inr (newer, base_fee, priority_fee, b, f, same) ↦
      let entry : BlockFees = record {
        block_number = block;
        base_fee = base_fee;
        priority_fee = priority_fee;
      } in
      (
        rw same (push_block-Recent o entry newer r),
        (λ old. ground arith),
        λ _. (
          entry,
          refl,
          b,
          f,
          ap (λ x. x.last_block) same,
          ap (λ x. x.fee_history) same ∙ push_block-history o entry,
        ),
      )
]
