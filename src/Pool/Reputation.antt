-- ===== src/Pool/Reputation.antt =====
-- Entity reputation (crates/pool/src/reputation.rs). The 64-bit floats of the inclusion ratio are a
-- parameter, the record `Float`.
pub mod Decay
pub mod Standing
use bunzo.Prelude.{
  ℕ, suc, ◌+◌, ◌*◌, ◌/◌, ◌≤◌, ◌≡◌, ◌==◌, ◌||◌, Bool, true, false, List, [], ◌∷◌, map, Option, none,
  some, ltb, if◌then◌else◌, unwrap_or, ℕ_discrete,
}
use bunzo.Prelude.Words.{add_u64, mul_u64}
use bunzo.Prelude.Maps.{HashMap, get, insert, retain}
use bunzo.Prelude.Result.{Result, ok, err}
use bunzo.Types.Entity.{Entity}

pub data ReputationStatus : Type 0 where
  in_good_standing throttled banned : ReputationStatus

-- What the code uses of f64: conversion from u64, division, comparison, and the literals of the
-- default configuration, 0.1 and 0.01. The laws are those of IEEE 754: 0.01 is positive, zero divided
-- by a positive number is zero, and a ratio grows with its numerator.
pub record Float : Type 1 where
  pub F : Type 0
  pub of_u64 : ℕ → F
  pub div : F → F → F
  pub lt : F → F → Bool
  pub tenth : F
  pub hundredth : F
  pub hundredth_positive : lt (of_u64 0) hundredth ≡ true
  pub zero_div :
      (n : ℕ) (t : F) → lt (of_u64 0) t ≡ true → lt (div (of_u64 0) (of_u64 (suc n))) t ≡ true
  pub div_mono :
      (a b n : ℕ) (t : F)
      → a ≤ b
      → lt (div (of_u64 b) (of_u64 n)) t ≡ true
      → lt (div (of_u64 a) (of_u64 n)) t ≡ true

pub record ReputationEntry : Type 0 where
  pub ops_seen : ℕ
  pub ops_included : ℕ

abbrev pub new_entry : ReputationEntry
new_entry = record { ops_seen = 0; ops_included = 0 }

unfoldable pub decay_entry : ReputationEntry → ReputationEntry
decay_entry e = record {
  ops_seen = mul_u64 e.ops_seen 23 / 24;
  ops_included = mul_u64 e.ops_included 23 / 24;
}

unfoldable pub is_alive : ReputationEntry → Bool
is_alive e = ltb 0 e.ops_seen || ltb 0 e.ops_included

module _ (fl : Float) where
  open fl use {F, of_u64, div, lt, tenth, hundredth}

  pub record ReputationConfig : Type 0 where
    pub min_ops_for_throttle : ℕ
    pub throttle_threshold : F
    pub ban_threshold : F

  unfoldable pub entry_status : ReputationConfig → ReputationEntry → ReputationStatus
  entry_status c e =
      let ratio = div (of_u64 e.ops_included) (of_u64 e.ops_seen) in
      if e.ops_seen == 0
      then in_good_standing
      else if ltb c.min_ops_for_throttle e.ops_seen
      then (if lt ratio c.ban_threshold
          then banned
          else if lt ratio c.throttle_threshold
          then throttled
          else in_good_standing)
      else in_good_standing

  pub record ReputationManager : Type 0 where
    pub entries : HashMap ℕ ReputationEntry
    pub config : ReputationConfig

  unfoldable pub new : ReputationConfig → ReputationManager
  new config = record { entries = []; config = config }

  abbrev pub default_config : ReputationConfig
  default_config = record {
    min_ops_for_throttle = 10;
    throttle_threshold = tenth;
    ban_threshold = hundredth;
  }

  unfoldable pub default_manager : ReputationManager
  default_manager = new default_config

  unfoldable pub status : ReputationManager → ℕ → ReputationStatus
  status m address = elim (get ℕ_discrete address m.entries) [
    | none ↦ in_good_standing
    | some e ↦ entry_status m.config e
  ]

  unfoldable pub check_entity : ReputationManager → Entity → Result ReputationStatus (Unit {0})
  unfolding status
  check_entity m entity = elim (status m entity.address) [
    | in_good_standing ↦ ok tt
    | throttled ↦ err throttled
    | banned ↦ err banned
  ]

  unfoldable pub record_seen : ReputationManager → ℕ → ReputationManager
  record_seen m address =
      let e = unwrap_or (get ℕ_discrete address m.entries) new_entry in
      record m {
        entries =
            insert ℕ_discrete address (record e { ops_seen = add_u64 e.ops_seen 1 }) m.entries;
      }

  unfoldable pub record_included : ReputationManager → ℕ → ReputationManager
  record_included m address =
      let e = unwrap_or (get ℕ_discrete address m.entries) new_entry in
      record m {
        entries =
            insert ℕ_discrete address (record e { ops_included = add_u64 e.ops_included 1 })
              m.entries;
      }

  unfoldable pub hourly_decay : ReputationManager → ReputationManager
  unfolding decay_entry is_alive
  hourly_decay m = record m { entries = retain decay_entry is_alive m.entries }

  unfoldable pub clear : ReputationManager → ReputationManager
  clear m = record m { entries = [] }

  unfoldable pub dump : ReputationManager → List (ℕ × ReputationStatus)
  unfolding entry_status
  dump m = map (λ e. (e.0, entry_status m.config e.1)) m.entries
