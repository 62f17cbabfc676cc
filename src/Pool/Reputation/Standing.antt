-- ===== src/Pool/Reputation/Standing.antt =====
-- What the counters say of an entity (crates/pool/src/reputation.rs, `status`, `check_entity`).
use bunzo.Prelude.{
  ℕ, zero, suc, ◌+◌, ◌%◌, ◌≤◌, ◌<◌, ◌==◌, ◌≡◌, refl, ◌⊎◌, inl, inr, true, List, [], ◌∷◌, arith,
  if◌then◌else◌, unwrap_or, ℕ_discrete, ltb,
}
use bunzo.Prelude.Words.{u64_mod}
use bunzo.Prelude.Maps.{get, get-insert}
use bunzo.Prelude.Result.{ok, err}
use bunzo.Types.Entity.{Entity}
use bunzo.Pool.Reputation.{
  Float, ReputationEntry, ReputationStatus, ReputationConfig, ReputationManager, in_good_standing,
  throttled, banned, new_entry, entry_status, status, check_entity, record_seen, new,
}

abbrev pub severity : ReputationStatus → ℕ
severity in_good_standing = 0
severity throttled = 1
severity banned = 2

-- How often an address occurs.
abbrev pub occurrences : ℕ → List ℕ → ℕ
occurrences a [] = 0
occurrences a (x ∷ xs) = (if x == a then 1 else 0) + occurrences a xs

Nat-cases : (n : ℕ) → (n ≡ 0) ⊎ ((k : ℕ) × (n ≡ suc k))
Nat-cases zero = inl refl
Nat-cases (suc k) = inr (k, refl)

module _ (fl : Float) where
  open fl use {F, of_u64, div, lt, zero_div, div_mono}

  -- More included operations, with as many seen, never make the status of an entity worse.
  pub entry_status_mono :
      (c : ReputationConfig fl) (seen a b : ℕ)
      → a ≤ b
      → severity (entry_status fl c (record { ops_seen = seen; ops_included = b }))
        ≤ severity (entry_status fl c (record { ops_seen = seen; ops_included = a }))
  unfolding entry_status
  entry_status_mono c seen a b h =
      ground (arith, div_mono a b seen c.ban_threshold h, div_mono a b seen c.throttle_threshold h)

  -- The entry that the code reads, with the one of an unknown address written out.
  abbrev pub entry_of : ReputationManager fl → ℕ → ReputationEntry
  entry_of m a = unwrap_or (get ℕ_discrete a m.entries) new_entry

  pub status-entry_of :
      (m : ReputationManager fl) (a : ℕ) → status fl m a ≡ entry_status fl m.config (entry_of m a)
  unfolding status entry_status
  status-entry_of m a = ground arith

  unfoldable pub seen_all : ReputationManager fl → List ℕ → ReputationManager fl
  seen_all m [] = m
  seen_all m (a ∷ xs) = seen_all (record_seen fl m a) xs

  pub seen_all_config : (m : ReputationManager fl) (xs : List ℕ) → (seen_all m xs).config ≡ m.config
  unfolding seen_all record_seen
  seen_all_config m [] = refl
  seen_all_config m (x ∷ xs) = seen_all_config (record_seen fl m x) xs

  entry_of-record_seen :
      (m : ReputationManager fl) (x a : ℕ)
      → (entry_of m a).ops_seen + (if x == a then 1 else 0) < u64_mod
      → ((entry_of (record_seen fl m x) a).ops_seen
          ≡ (entry_of m a).ops_seen + (if x == a then 1 else 0))
        × ((entry_of (record_seen fl m x) a).ops_included ≡ (entry_of m a).ops_included)
  unfolding record_seen
  entry_of-record_seen m x a small = ground (
    arith,
    get-insert ℕ_discrete x a
        (record (entry_of m x) { ops_seen = ((entry_of m x).ops_seen + 1) % u64_mod }) m.entries,
  )

  pub entry_of-seen_all :
      (m : ReputationManager fl) (xs : List ℕ) (a : ℕ)
      → (entry_of m a).ops_seen + occurrences a xs < u64_mod
      → ((entry_of (seen_all m xs) a).ops_seen ≡ (entry_of m a).ops_seen + occurrences a xs)
        × ((entry_of (seen_all m xs) a).ops_included ≡ (entry_of m a).ops_included)
  unfolding seen_all
  entry_of-seen_all m [] a small = ground arith
  entry_of-seen_all m (x ∷ xs) a small =
      ground (arith, entry_of-record_seen m x a, entry_of-seen_all (record_seen fl m x) xs a)

  -- An entity none of whose operations was included.
  pub never_included :
      (c : ReputationConfig fl) (e : ReputationEntry)
      → lt (of_u64 0) c.ban_threshold ≡ true
      → e.ops_included ≡ 0
      → entry_status fl c e
        ≡ (if ltb c.min_ops_for_throttle e.ops_seen then banned else in_good_standing)
  unfolding entry_status
  never_included c e zero_low none_included = elim (Nat-cases e.ops_seen) [
    | inl z ↦ ground arith
    | inr (n, s) ↦ ground (arith, zero_div n c.ban_threshold zero_low)
  ]

  -- A manager that is only ever told of seen operations, as the one of the validator is: after any
  -- list of fewer than 2^64 of them, an address seen more often than `min_ops_for_throttle` is
  -- banned, where zero is below the ban threshold, and any other address is in good standing.
  pub seen_only_banned :
      (c : ReputationConfig fl) (xs : List ℕ) (entity : Entity)
      → occurrences entity.address xs < u64_mod
      → lt (of_u64 0) c.ban_threshold ≡ true
      → check_entity fl (seen_all (new fl c) xs) entity
        ≡ (if ltb c.min_ops_for_throttle (occurrences entity.address xs) then err banned else ok tt)
  unfolding check_entity new get
  seen_only_banned c xs entity small zero_low =
      let a = entity.address in
      let counts = entry_of-seen_all (new fl c) xs a (omega arith) in
      ground (
        arith,
        seen_all_config (new fl c) xs,
        status-entry_of (seen_all (new fl c) xs) a,
        never_included c (entry_of (seen_all (new fl c) xs) a) zero_low counts.1,
        counts.0,
      )
