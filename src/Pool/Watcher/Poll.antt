-- ===== src/Pool/Watcher/Poll.antt =====
-- Which blocks a poll announces (crates/pool/src/chain.rs, `pool`).
use bunzo.Prelude.{
  ℕ, zero, suc, ◌+◌, ◌-◌, ◌<◌, ◌≡◌, refl, ap, ◌∙◌, ◌⊎◌, inl, inr, max, List, [], ◌∷◌, ◌++◌, arith,
  leb, Bool-cases, Option-cases, unwrap_or, leb→le,
}
use bunzo.Prelude.Result.{ok, err, Result-cases}
use bunzo.Prelude.Words.{to_u64}
use bunzo.Provider.Traits.{ProviderError, invalid_response}
use bunzo.Pool.Reputation.{Float}
use bunzo.Pool.Watcher.{
  Block, Log, Node, ChainEvent, new_block, reorg, ChainWatcher, handle_reorg, scan_log, scan_logs,
  check_reorg, remember, process_block, process_blocks, poll,
}

-- The numbers of the announced blocks, the newest first.
abbrev pub announced : List ChainEvent → List ℕ
announced [] = []
announced (new_block number hash base_fee timestamp ∷ events) = number ∷ announced events
announced (reorg depth new_head ∷ events) = announced events

-- `count` numbers from `first` on, the highest first.
abbrev pub descending : (count first : ℕ) → List ℕ
descending zero first = []
descending (suc count) first = (first + count) ∷ descending count first

descending_shift :
    (count first : ℕ) (l : List ℕ)
    → descending count (first + 1) ++ (first ∷ l) ≡ descending (suc count) first ++ l
descending_shift zero first l = ap (λ n. n ∷ l) (omega arith)
descending_shift (suc count) first l =
    let e : first + 1 + count ≡ first + suc count = omega arith in
    rw e (ap (◌∷◌ (first + suc count)) (descending_shift count first l))

module _ (fl : Float) where
  events-scan_logs :
      (w : ChainWatcher fl) (logs : List Log) → (scan_logs fl w logs).events ≡ w.events
  unfolding scan_logs scan_log
  events-scan_logs w [] = refl
  events-scan_logs w (log ∷ logs) =
      let e : (scan_log fl w log).events ≡ w.events = ground arith in
      events-scan_logs (scan_log fl w log) logs ∙ e

  announced-check_reorg :
      (w : ChainWatcher fl) (number : ℕ) (block : Block)
      → announced (check_reorg fl w number block).events ≡ announced w.events
  unfolding check_reorg handle_reorg
  announced-check_reorg w number block = ground arith

  -- One block: it is announced if all went well, and no other block is.
  announced-process_block :
      (node : Node) (w : ChainWatcher fl) (number : ℕ)
      → let done = process_block fl node w number in
        ((done.1 ≡ ok tt) × (announced done.0.events ≡ number ∷ announced w.events))
        ⊎ ((e : ProviderError) × (done.1 ≡ err e) × (announced done.0.events ≡ announced w.events))
  unfolding process_block remember
  announced-process_block node w number = elim (Result-cases (node.get_block number)) [
    | inr (e, f) ↦ inr (e, ground (arith, f), ground (arith, f))
    | inl (found, f) ↦ elim (Option-cases found) [
      | inl absent ↦ inr (invalid_response, ground arith, ground arith)
      | inr (block, present) ↦
          let base_fee = unwrap_or block.base_fee_per_gas 0 in
          let stored = record w { base_fee = to_u64 base_fee } in
          let checked = check_reorg fl stored number block in
          let kept : announced checked.events ≡ announced w.events =
            announced-check_reorg stored number block in
          elim (Result-cases (node.get_logs number)) [
            | inr (e, g) ↦ inr (e, ground arith, ground (arith, kept))
            | inl (logs, g) ↦
                inl (ground arith, ground (arith, kept, events-scan_logs checked logs))
          ]
    ]
  ]

  -- The blocks of one poll: all of them are announced, or those before the one that failed.
  announced-process_blocks :
      (node : Node) (count : ℕ) (w : ChainWatcher fl) (number : ℕ)
      → let done = process_blocks fl node count w number in
        ((done.1 ≡ ok tt)
          × (announced done.0.events ≡ descending count number ++ announced w.events))
        ⊎ ((e : ProviderError) × (k : ℕ) × (done.1 ≡ err e)
            × (k < count)
            × (announced done.0.events ≡ descending k number ++ announced w.events))
  unfolding process_blocks
  announced-process_blocks node zero w number = inl (refl, refl)
  announced-process_blocks node (suc count) w number =
      let done = process_block fl node w number in
      elim (announced-process_block node w number) [
        | inr (e, f, same) ↦ inr (e, 0, ground arith, omega arith, ground (arith, same))
        | inl (f, one) ↦ elim (announced-process_blocks node count done.0 (number + 1)) [
          | inl (g, all) ↦ inl (
            ground arith,
            ground (arith, all, one, descending_shift count number (announced w.events)),
          )
          | inr (e, k, g, less, some_of) ↦ inr (
            e,
            suc k,
            ground arith,
            omega (arith, less),
            ground (arith, some_of, one, descending_shift k number (announced w.events)),
          )
        ]
      ]

  -- When the node tells the newest block, a poll that succeeds has announced every block after the
  -- last one that was known, up to the newest one, each once and in ascending order, and the last
  -- one known is then the newest one, if it was not beyond it already. A poll that fails while it
  -- processes the blocks has announced those before the one that failed.
  pub announced-poll :
      (node : Node) (w : ChainWatcher fl) (current : ℕ)
      → node.get_block_number ≡ ok current
      → let done = poll fl node w in
        let number = w.last_block + 1 in
        ((done.1 ≡ ok tt)
          × (done.0.last_block ≡ max current w.last_block)
          × (announced done.0.events
              ≡ descending (current - w.last_block) number ++ announced w.events))
        ⊎ ((e : ProviderError) × (k : ℕ) × (done.1 ≡ err e)
            × (k < current - w.last_block)
            × (announced done.0.events ≡ descending k number ++ announced w.events))
  unfolding poll
  announced-poll node w current asked = elim (Bool-cases (leb current w.last_block)) [
    | inl known ↦
        let nothing_new : current - w.last_block ≡ 0 =
          omega (arith, leb→le current w.last_block known) in
        let idle : (poll fl node w).0 ≡ w = ground arith in
        inl (ground arith, ground arith, rw nothing_new (ap (λ x. announced x.events) idle))
    | inr behind ↦
        elim (announced-process_blocks node (current - w.last_block) w (w.last_block + 1)) [
          | inl (f, all) ↦ inl (ground arith, ground arith, ground (arith, all))
          | inr (e, k, f, less, some_of) ↦ inr (e, k, ground arith, less, ground (arith, some_of))
        ]
  ]
