-- ===== src/Pool/Watcher.antt =====
-- The chain watcher (crates/pool/src/chain.rs). The answers of the node during one poll are the
-- record `Node`; the published events are collected in a list, newest first. The block history is
-- kept with its back at the head of the list.
pub mod Reorg
pub mod Mined
pub mod Poll
pub mod Run
use bunzo.Prelude.{
  ℕ, zero, suc, ◌+◌, ◌-◌, ◌==◌, ◌&&◌, Bool, true, false, not, List, [], ◌∷◌, Option, none, some,
  ltb, leb, if◌then◌else◌, length, take, drop, unwrap_or, get_elem?,
}
use bunzo.Prelude.Words.{to_u64, add_u64}
use bunzo.Prelude.Result.{Result, ok, err}
use bunzo.Provider.Traits.{ProviderError, invalid_response}
use bunzo.Types.Entity.{Entity}
use bunzo.Types.Chain.{ChainSpec}
use bunzo.Types.UserOperation as Op
use bunzo.Pool.Store.{OperationPool, remove_by_hash}
use bunzo.Pool.Reputation.{Float, ReputationManager, record_included}

pub record Block : Type 0 where
  pub hash : ℕ
  pub parent_hash : ℕ
  pub base_fee_per_gas : Option ℕ
  pub timestamp : ℕ

pub record Log : Type 0 where
  pub topics : List ℕ

-- `get_logs` stands for the logs of the entry point's `UserOperationEvent` in one block.
pub record Node : Type 0 where
  pub get_block_number : Result ProviderError ℕ
  pub get_block : ℕ → Result ProviderError (Option Block)
  pub get_logs : ℕ → Result ProviderError (List Log)

pub data ChainEvent : Type 0 where
  new_block : (number hash base_fee timestamp : ℕ) → ChainEvent
  reorg : (depth new_head : ℕ) → ChainEvent

pub record BlockEntry : Type 0 where
  pub number : ℕ
  pub hash : ℕ
  pub base_fee : ℕ

unfoldable pub detect_reorg_depth : List BlockEntry → ℕ → ℕ
detect_reorg_depth [] new_parent_hash = 0
detect_reorg_depth (e ∷ history) new_parent_hash =
    let deeper = suc (detect_reorg_depth history new_parent_hash) in
    if e.hash == new_parent_hash then 0 else deeper

module _ (fl : Float) where
  pub record ChainWatcher : Type 0 where
    pub pool : OperationPool
    pub reputation : ReputationManager fl
    pub chain_spec : ChainSpec
    pub base_fee : ℕ
    pub block_history : List BlockEntry
    pub last_block : ℕ
    pub events : List ChainEvent

  publish : ChainWatcher → ChainEvent → ChainWatcher
  publish w e = record w { events = e ∷ w.events }

  unfoldable pub handle_reorg : ChainWatcher → ℕ → ChainWatcher
  handle_reorg w depth =
      let history = drop depth w.block_history in
      record w {
        block_history = history;
        last_block = elim history [ [] ↦ w.last_block | last ∷ _ ↦ last.number ];
      }

  unfoldable pub include_all : ReputationManager fl → List Entity → ReputationManager fl
  include_all m [] = m
  include_all m (entity ∷ entities) = include_all (record_included fl m entity.address) entities

  -- One log of the loop of `scan_user_op_events`.
  unfoldable pub scan_log : ChainWatcher → Log → ChainWatcher
  scan_log w log = elim (get_elem? log.topics 1) [
    | none ↦ w
    | some user_op_hash ↦ elim (remove_by_hash w.pool user_op_hash).1 [
      | none ↦ w
      | some entry ↦ record w {
        pool = (remove_by_hash w.pool user_op_hash).0;
        reputation = include_all w.reputation (Op.entities entry.uo);
      }
    ]
  ]

  unfoldable pub scan_logs : ChainWatcher → List Log → ChainWatcher
  scan_logs w [] = w
  scan_logs w (log ∷ logs) = scan_logs (scan_log w log) logs

  -- The test for a reorganisation, and what follows from it.
  unfoldable pub check_reorg : ChainWatcher → ℕ → Block → ChainWatcher
  unfolding publish
  check_reorg w block_number block = elim w.block_history [
    | [] ↦ w
    | last_entry ∷ _ ↦
        if not (block.parent_hash == last_entry.hash) && block_number == add_u64 last_entry.number 1
        then (let depth = detect_reorg_depth w.block_history block.parent_hash in
            if ltb 0 depth then publish (handle_reorg w depth) (reorg depth block_number) else w)
        else w
  ]

  -- `push_back` of the block, and `pop_front` while the history is too long.
  unfoldable pub remember : ChainWatcher → BlockEntry → ChainWatcher
  remember w entry = record w {
    block_history = take w.chain_spec.chain_history_size (entry ∷ w.block_history);
  }

  unfoldable pub process_block :
      Node → ChainWatcher → ℕ → ChainWatcher × Result ProviderError (Unit {0})
  unfolding publish
  process_block node w block_number = elim (node.get_block block_number) [
    | err e ↦ (w, err e)
    | ok none ↦ (w, err invalid_response)
    | ok (some block) ↦
        let base_fee = unwrap_or block.base_fee_per_gas 0 in
        let stored = record w { base_fee = to_u64 base_fee } in
        let checked = check_reorg stored block_number block in
        let entry : BlockEntry = record {
          number = block_number;
          hash = block.hash;
          base_fee = base_fee;
        } in
        elim (node.get_logs block_number) [
          | err e ↦ (checked, err e)
          | ok logs ↦ (
            publish (remember (scan_logs checked logs) entry)
                (new_block block_number block.hash base_fee block.timestamp),
            ok tt,
          )
        ]
  ]

  -- The loop of `pool` over `count` blocks from `first` on.
  unfoldable pub process_blocks :
      Node → ℕ → ChainWatcher → ℕ → ChainWatcher × Result ProviderError (Unit {0})
  process_blocks node zero w first = (w, ok tt)
  process_blocks node (suc count) w first =
      let done = process_block node w first in
      let rest = process_blocks node count done.0 (first + 1) in
      elim done.1 [ err e ↦ (done.0, err e) | ok _ ↦ rest ]

  unfoldable pub poll : Node → ChainWatcher → ChainWatcher × Result ProviderError (Unit {0})
  poll node w = elim node.get_block_number [
    | err e ↦ (w, err e)
    | ok current_block ↦
        if leb current_block w.last_block
        then (w, ok tt)
        else (let done = process_blocks node (current_block - w.last_block) w (w.last_block + 1) in
            elim done.1 [
              | err e ↦ (done.0, err e)
              | ok _ ↦ (record done.0 { last_block = current_block }, ok tt)
            ])
  ]
