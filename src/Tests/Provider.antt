-- ===== src/Tests/Provider.antt =====
-- The theorems on the gas oracle.
use bunzo.Prelude.{ℕ, ◌-◌, ◌≤◌, ◌<◌, ◌≡◌, refl, [], ◌∷◌, ◌++◌, some, arith, length, drop}
use bunzo.Prelude.Result.{ok}
use bunzo.Provider.GasOracle.{
  ProviderGasOracle, BlockFees, EvmProvider, new, refresh_if_needed, median_priority_fee,
}
use bunzo.Provider.GasOracle.Median.{below, above, median_priority_fee_lem}
use bunzo.Provider.GasOracle.Recent.{Recent, new-Recent, refresh_if_needed-Recent}

abbrev block : BlockFees
block = record { block_number = 9; base_fee = 100; priority_fee = 7 }

abbrev oracle : ProviderGasOracle
oracle = record new { last_base_fee = 100; last_block = 9; fee_history = block ∷ [] }

abbrev node : EvmProvider
node = record { get_block_number = ok 9; get_base_fee = ok 100; get_max_priority_fee = ok 7 }

median_priority_fee_lem_example :
    (m : ℕ) × (median_priority_fee oracle ≡ some m)
    × (below m (7 ∷ []) ≤ 0)
    × (above m (7 ∷ []) ≤ 0)
median_priority_fee_lem_example = median_priority_fee_lem oracle (omega arith)

refresh_if_needed-Recent_example :
    Recent oracle
    × (9 ≤ 0 → oracle ≡ new)
    × (0 < 9
        → (entry : BlockFees) × (entry.block_number ≡ 9)
          × (node.get_base_fee ≡ ok entry.base_fee)
          × (node.get_max_priority_fee ≡ ok entry.priority_fee)
          × (oracle.last_block ≡ 9)
          × let history = new.fee_history ++ (entry ∷ []) in
            oracle.fee_history ≡ drop (length history - new.history_size) history)
unfolding refresh_if_needed
refresh_if_needed-Recent_example = refresh_if_needed-Recent node new oracle 9 new-Recent refl refl
