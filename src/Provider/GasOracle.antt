-- ===== src/Provider/GasOracle.antt =====
-- crates/provider/src/gas_oracle.rs: the fees of the last blocks. The node is the record
-- `EvmProvider` of what its calls answer during one call of the oracle.
pub mod Median
pub mod Recent
use bunzo.Prelude.{
  ℕ, zero, suc, ◌+◌, ◌-◌, ◌/◌, ◌≡◌, ◌==◌, ◌≤◌, ◌<◌, Bool, List, [], ◌∷◌, ◌++◌, map, Option, none,
  some, arith, leb, ltb, if◌then◌else◌, length, drop, get_elem?, unwrap_or,
}
use bunzo.Prelude.Words.{to_u64, add_u128}
use bunzo.Prelude.Result.{Result, ok, err, ◌>>=◌}
use bunzo.Provider.Traits.{ProviderError}
use bunzo.Types.Gas.{GasFees}

pub record EvmProvider : Type 0 where
  pub get_block_number : Result ProviderError ℕ
  pub get_base_fee : Result ProviderError ℕ
  pub get_max_priority_fee : Result ProviderError ℕ

pub record BlockFees : Type 0 where
  pub block_number : ℕ
  pub base_fee : ℕ
  pub priority_fee : ℕ

pub record ProviderGasOracle : Type 0 where
  pub last_base_fee : ℕ
  pub last_block : ℕ
  pub fee_history : List BlockFees
  pub history_size : ℕ

abbrev pub new : ProviderGasOracle
new = record { last_base_fee = 0; last_block = 0; fee_history = []; history_size = 5 }

-- `while history.len() > history_size { history.pop_front() }`, on fuel: as many rounds as there are
-- blocks in the history are enough.
unfoldable pub trim : ℕ → ℕ → List BlockFees → List BlockFees
trim zero size history = history
trim (suc fuel) size [] = []
trim (suc fuel) size (b ∷ history) =
    let rest = trim fuel size history in
    if ltb size (length (b ∷ history)) then rest else b ∷ history

-- `refresh_if_needed` once the node has answered.
unfoldable pub push_block :
    ProviderGasOracle → (block base_fee priority_fee : ℕ) → ProviderGasOracle
unfolding trim
push_block o block base_fee priority_fee =
    let entry : BlockFees = record {
      block_number = block;
      base_fee = base_fee;
      priority_fee = priority_fee;
    } in
    let history = o.fee_history ++ (entry ∷ []) in
    record o {
      last_base_fee = to_u64 base_fee;
      last_block = block;
      fee_history = trim (length history) o.history_size history;
    }

unfoldable pub refresh_if_needed :
    EvmProvider → ProviderGasOracle → Result ProviderError ProviderGasOracle
unfolding push_block
refresh_if_needed node o = do
  block ← node.get_block_number
  if leb block o.last_block then ok o else do
    base_fee ← node.get_base_fee
    priority_fee ← node.get_max_priority_fee
    ok (push_block o block base_fee priority_fee)

-- `sort_unstable` on numbers, whose result does not depend on the algorithm.
unfoldable pub insert_fee : ℕ → List ℕ → List ℕ
insert_fee a [] = a ∷ []
insert_fee a (b ∷ fees) =
    let rest = insert_fee a fees in if leb a b then a ∷ (b ∷ fees) else b ∷ rest

unfoldable pub sort_fees : List ℕ → List ℕ
unfolding insert_fee
sort_fees [] = []
sort_fees (a ∷ fees) = insert_fee a (sort_fees fees)

unfoldable pub median_priority_fee : ProviderGasOracle → Option ℕ
unfolding sort_fees
median_priority_fee o =
    let fees = sort_fees (map (λ b. b.priority_fee) o.fee_history) in
    get_elem? fees (length fees / 2)

-- `current_fees` once the cache is fresh.
unfoldable pub fees_of : ProviderGasOracle → GasFees
unfolding median_priority_fee
fees_of o =
    let priority_fee = unwrap_or (median_priority_fee o) (o.last_base_fee / 10) in
    record {
      max_fee_per_gas = add_u128 o.last_base_fee priority_fee;
      max_priority_fee_per_gas = priority_fee;
    }

-- A call that fails leaves the oracle as it was.
unfoldable pub current_fees :
    EvmProvider → ProviderGasOracle → ProviderGasOracle × Result ProviderError GasFees
unfolding refresh_if_needed fees_of
current_fees node o = elim (refresh_if_needed node o) [
  | err e ↦ (o, err e)
  | ok o' ↦ (o', ok (fees_of o'))
]

unfoldable pub base_fee :
    EvmProvider → ProviderGasOracle → ProviderGasOracle × Result ProviderError ℕ
unfolding refresh_if_needed
base_fee node o = elim (refresh_if_needed node o) [
  | err e ↦ (o, err e)
  | ok o' ↦ (o', if ltb 0 o'.last_base_fee then ok o'.last_base_fee else node.get_base_fee)
]
