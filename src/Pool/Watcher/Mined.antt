-- ===== src/Pool/Watcher/Mined.antt =====
-- Mined operations leave the pool (crates/pool/src/chain.rs, `scan_user_op_events`).
use bunzo.Prelude.{
  ℕ, ◌==◌, ◌≡◌, refl, inl, inr, Bool, false, ◌||◌, List, [], ◌∷◌, Option, none, some, arith,
  get_elem?, Option-cases, if◌then◌else◌,
}
use bunzo.Pool.Entry.{PoolEntry}
use bunzo.Pool.Contents.{find_hash, find_hash-erase, hash-find_hash}
use bunzo.Pool.Store.{OperationPool, get_by_hash, remove_by_hash}
use bunzo.Pool.Represents.{Represents}
use bunzo.Pool.Refines.{spec_remove, remove_by_hash_refines}
use bunzo.Pool.Reputation.{Float}
use bunzo.Pool.Watcher.{ChainWatcher, Log, scan_log, scan_logs}

-- Some log has the hash as its second topic.
abbrev pub mined : ℕ → List Log → Bool
mined h [] = false
mined h (log ∷ logs) = elim (get_elem? log.topics 1) [
  | none ↦ mined h logs
  | some t ↦ t == h || mined h logs
]

-- The abstract pool after one log.
list_after : List PoolEntry → Option ℕ → List PoolEntry
list_after l none = l
list_after l (some h) = spec_remove (find_hash h l) l

after_log : Log → List PoolEntry → List PoolEntry
after_log log l = list_after l (get_elem? log.topics 1)

pool_after : OperationPool → Option ℕ → OperationPool
pool_after p none = p
pool_after p (some h) = (remove_by_hash p h).0

pool_after-Represents :
    (p : OperationPool) (l : List PoolEntry) (topic : Option ℕ)
    → Represents p l
    → Represents (pool_after p topic) (list_after l topic)
unfolding pool_after list_after
pool_after-Represents p l none r = r
pool_after-Represents p l (some h) r = (remove_by_hash_refines p l r h).1

find_hash-after_log :
    (log : Log) (k : ℕ) (l : List PoolEntry)
    → find_hash k (after_log log l) ≡ (if mined k (log ∷ []) then none else find_hash k l)
unfolding spec_remove after_log list_after
find_hash-after_log log k l = elim (Option-cases (get_elem? log.topics 1)) [
  | inl e ↦ ground arith
  | inr (h, e) ↦ elim (Option-cases (find_hash h l)) [
    | inl f ↦ ground arith
    | inr (x, f) ↦ ground (arith, find_hash-erase x.hash k l, hash-find_hash h l x f)
  ]
]

module _ (fl : Float) where
  scan_log_pool :
      (w : ChainWatcher fl) (log : Log)
      → (scan_log fl w log).pool ≡ pool_after w.pool (get_elem? log.topics 1)
  unfolding scan_log pool_after remove_by_hash
  scan_log_pool w log = ground arith

  scan_log-Represents :
      (w : ChainWatcher fl) (log : Log) (l : List PoolEntry)
      → Represents w.pool l
      → Represents (scan_log fl w log).pool (after_log log l)
  unfolding after_log
  scan_log-Represents w log l r =
      rw (scan_log_pool w log) (pool_after-Represents w.pool l (get_elem? log.topics 1) r)

  -- After the logs of a block the pool answers by hash as before, but for the operations that the
  -- logs name as mined, which are gone; and it still represents a list of entries.
  pub scan_logs-mined :
      (w : ChainWatcher fl) (logs : List Log) (l : List PoolEntry) (k : ℕ)
      → Represents w.pool l
      → let w' = scan_logs fl w logs in
        (get_by_hash w'.pool k ≡ (if mined k logs then none else get_by_hash w.pool k))
        × ((l' : List PoolEntry) × Represents w'.pool l')
  unfolding scan_logs get_by_hash
  scan_logs-mined w [] l k r = (refl, (l, r))
  scan_logs-mined w (log ∷ logs) l k r =
      let r' = scan_log-Represents w log l r in
      let (answer, rest) = scan_logs-mined (scan_log fl w log) logs (after_log log l) k r' in
      (ground (arith, answer, r.by_hash_is, r'.by_hash_is, find_hash-after_log log k l), rest)
