-- ===== src/Pool/Watcher/Reorg.antt =====
-- Reorganisations as the watcher sees them (crates/pool/src/chain.rs, `detect_reorg_depth`,
-- `handle_reorg`).
use bunzo.Prelude.{
  ℕ, zero, suc, ◌+◌, ◌≤◌, ◌<◌, ◌≡◌, refl, ap, ◌≢◌, inl, inr, ◌∙◌, unwrap_or, List, [], ◌∷◌, some,
  arith, length, All, drop, take, length-take,
}
use bunzo.Prelude.Words.{u64_mod, to_u64}
use bunzo.Prelude.Result.{ok, Result-cases}
use bunzo.Pool.Reputation.{Float}
use bunzo.Pool.Watcher.{
  ChainWatcher, Log, Block, BlockEntry, Node, reorg, detect_reorg_depth, handle_reorg, check_reorg,
  process_block, remember, scan_logs, scan_log,
}

-- Block numbers fall along the history, from its back on.
abbrev pub Falls : List BlockEntry → Type 0
Falls [] = Unit
Falls (e ∷ history) = All (λ x. x.number < e.number) history × Falls history

-- The hashes of the history are those of blocks with the recorded numbers.
abbrev pub OnChain : (ℕ → ℕ) → List BlockEntry → Type 0
OnChain number_of = All (λ e. number_of e.hash ≡ e.number)

-- A hash of a block that is higher than the whole list is not found in it.
unseen_depth :
    (number_of : ℕ → ℕ) (h : ℕ) (history : List BlockEntry)
    → OnChain number_of history
    → All (λ e. e.number < number_of h) history
    → detect_reorg_depth history h ≡ length history
unfolding detect_reorg_depth
unseen_depth number_of h [] c b = refl
unseen_depth number_of h (e ∷ history) c b =
    ground (arith, unseen_depth number_of h history c.1 b.1)

drop-length {ℓ} : {A : Type ℓ} (xs : List A) → drop (length xs) xs ≡ []
drop-length [] = refl
drop-length (x ∷ xs) = drop-length xs

module _ (fl : Float) where
  -- The depth of a reorganisation is never measured: on a chain, where a hash belongs to a block of
  -- one number and the parent of a block has the number before it, a new block whose parent is
  -- not the last block of the history is reported as a reorganisation of the depth of the whole
  -- history, and the history is emptied, however shallow the reorganisation was.
  pub check_reorg_depth :
      (w : ChainWatcher fl) (number_of : ℕ → ℕ) (last : BlockEntry) (older : List BlockEntry)
      (block : Block)
      → w.block_history ≡ last ∷ older
      → Falls (last ∷ older)
      → OnChain number_of (last ∷ older)
      → number_of block.parent_hash ≡ last.number
      → last.number + 1 < u64_mod
      → block.parent_hash ≢ last.hash
      → let w' = check_reorg fl w (last.number + 1) block in
        (w'.events ≡ reorg (length (last ∷ older)) (last.number + 1) ∷ w.events)
        × (w'.block_history ≡ [])
        × (w'.last_block ≡ w.last_block)
  unfolding check_reorg handle_reorg detect_reorg_depth
  check_reorg_depth w number_of last older block history falls chain parent small different =
      ground (
        arith,
        unseen_depth number_of block.parent_hash older chain.1 (rw parent falls.0),
        drop-length older,
      )

  scan_logs_history :
      (w : ChainWatcher fl) (logs : List Log) → (scan_logs fl w logs).chain_spec ≡ w.chain_spec
  unfolding scan_logs scan_log
  scan_logs_history w [] = refl
  scan_logs_history w (log ∷ logs) = scan_logs_history (scan_log fl w log) logs ∙ ground arith

  check_reorg_spec :
      (w : ChainWatcher fl) (n : ℕ) (block : Block)
      → (check_reorg fl w n block).chain_spec ≡ w.chain_spec
  unfolding check_reorg handle_reorg
  check_reorg_spec w n block = ground arith

  -- The back of the history and its length after `remember`.
  remember_history :
      (w : ChainWatcher fl) (size : ℕ) (entry : BlockEntry)
      → w.chain_spec.chain_history_size ≡ size
      → let history = (remember fl w entry).block_history in
        (length history ≤ size) × (size ≢ 0 → (rest : List BlockEntry) × (history ≡ entry ∷ rest))
  unfolding remember
  remember_history w zero entry e = (ground arith, λ h. absurd (h refl))
  remember_history w (suc size) entry e = (
    ground (arith, length-take (suc size) (entry ∷ w.block_history)),
    λ h. (take size w.block_history, ground arith),
  )

  -- A block that is processed without an error leaves a history of at most `chain_history_size`
  -- blocks, whose back is that block if the size is not zero.
  pub process_block_history :
      (node : Node) (w : ChainWatcher fl) (n : ℕ) (block : Block)
      → node.get_block n ≡ ok (some block)
      → (process_block fl node w n).1 ≡ ok tt
      → let w' = (process_block fl node w n).0 in
        (length w'.block_history ≤ w.chain_spec.chain_history_size)
        × (w.chain_spec.chain_history_size ≢ 0
            → (rest : List BlockEntry) × (w'.block_history
                ≡ record {
                  number = n;
                  hash = block.hash;
                  base_fee = unwrap_or block.base_fee_per_gas 0;
                }
                  ∷ rest))
  unfolding process_block
  process_block_history node w n block found done = elim (Result-cases (node.get_logs n)) [
    | inr (e, bad) ↦ absurd (ground arith)
    | inl (logs, good) ↦
        let stored = record w { base_fee = to_u64 (unwrap_or block.base_fee_per_gas 0) } in
        let checked = check_reorg fl stored n block in
        rw (found, good, process_block)
          (remember_history (scan_logs fl checked logs) w.chain_spec.chain_history_size
            (record {
              number = n;
              hash = block.hash;
              base_fee = unwrap_or block.base_fee_per_gas 0;
            })
            (ap (λ c. c.chain_history_size)
              (scan_logs_history checked logs ∙ check_reorg_spec stored n block)))
  ]
