-- ===== src/Tests/Watcher.antt =====
-- The theorems on the watcher, on a history of two blocks.
use bunzo.Prelude.{
  ℕ, ◌<◌, ◌⊎◌, ◌++◌, ◌≡◌, refl, List, [], ◌∷◌, none, some, arith, if◌then◌else◌, ◌==◌,
}
use bunzo.Prelude.Result.{ok, err}
use bunzo.Types.Chain.{mainnet}
use bunzo.Pool.Entry.{PoolEntry}
use bunzo.Pool.Store.{get_by_hash}
use bunzo.Pool.Represents.{Represents}
use bunzo.Pool.Watcher.{
  ChainWatcher, Log, Block, BlockEntry, Node, reorg, poll, check_reorg, scan_logs,
}
use bunzo.Pool.Watcher.Poll.{announced, descending, announced-poll}
use bunzo.Provider.Traits.{ProviderError}
use bunzo.Pool.Watcher.Reorg.{check_reorg_depth}
use bunzo.Pool.Watcher.Mined.{scan_logs-mined}
use bunzo.Tests.Data.{fractions, pool_ab, entries_ab, pool_ab-Represents}
use bunzo.Tests.Reputation.{manager}

abbrev last : BlockEntry
last = record { number = 21; hash = 210; base_fee = 5 }

abbrev older : BlockEntry
older = record { number = 20; hash = 200; base_fee = 5 }

abbrev watcher : ChainWatcher fractions
watcher = record {
  pool = pool_ab;
  reputation = manager;
  chain_spec = mainnet;
  base_fee = 5;
  block_history = last ∷ older ∷ [];
  last_block = 21;
  events = [];
}

-- The block 22 on a fork of block 21, and its child of the same chain.
abbrev fork : Block
fork = record { hash = 221; parent_hash = 211; base_fee_per_gas = some 6; timestamp = 1 }

abbrev child : Block
child = record { hash = 220; parent_hash = 210; base_fee_per_gas = some 6; timestamp = 1 }

abbrev log : Log
log = record { topics = 99 ∷ 12 ∷ [] }

abbrev node : Node
node = record {
  get_block_number = ok 22;
  get_block = λ n. ok (some child);
  get_logs = λ n. ok (log ∷ []);
}

abbrev number_of : ℕ → ℕ
number_of hash = if hash == 200 then 20 else if hash == 220 then 22 else 21

check_reorg_depth_example :
    let w' = check_reorg fractions watcher 22 fork in
    (w'.events ≡ reorg 2 22 ∷ []) × (w'.block_history ≡ []) × (w'.last_block ≡ 21)
check_reorg_depth_example =
    check_reorg_depth fractions watcher number_of last (older ∷ []) fork refl
      ((omega arith, tt), (tt, tt)) (refl, (refl, tt)) refl (omega arith) (omega arith)

scan_logs-mined_example :
    let w' = scan_logs fractions watcher (log ∷ []) in
    (get_by_hash w'.pool 12 ≡ none) × ((l' : List PoolEntry) × Represents w'.pool l')
scan_logs-mined_example =
    scan_logs-mined fractions watcher (log ∷ []) entries_ab 12 pool_ab-Represents

announced-poll_example :
    let done = poll fractions node watcher in
    ((done.1 ≡ ok tt) × (done.0.last_block ≡ 22) × (announced done.0.events ≡ 22 ∷ []))
    ⊎ ((e : ProviderError) × (k : ℕ) × (done.1 ≡ err e)
        × (k < 1)
        × (announced done.0.events ≡ descending k 22 ++ []))
announced-poll_example = announced-poll fractions node watcher 22 refl
