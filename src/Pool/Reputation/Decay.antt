-- ===== src/Pool/Reputation/Decay.antt =====
-- The hourly decay of the reputation counters (crates/pool/src/reputation.rs, `hourly_decay`).
use bunzo.Prelude.{ℕ, zero, suc, ◌*◌, ◌≤◌, ◌<◌, ◌≡◌, refl, [], ◌∷◌, arith, All}
use bunzo.Prelude.Words.{u64_mod}
use bunzo.Prelude.Maps.{HashMap, retain}
use bunzo.Pool.Reputation.{
  Float, ReputationEntry, ReputationManager, decay_entry, is_alive, hourly_decay,
}

-- Both counters of every entry are at most `n`.
abbrev pub Bounded : ℕ → HashMap ℕ ReputationEntry → Type 0
Bounded n = All (λ e. (e.1.ops_seen ≤ n) × (e.1.ops_included ≤ n))

retain-Bounded :
    (n : ℕ) (m : HashMap ℕ ReputationEntry)
    → suc n * 23 < u64_mod
    → Bounded (suc n) m
    → Bounded n (retain decay_entry is_alive m)
unfolding retain decay_entry is_alive
retain-Bounded n [] h b = tt
retain-Bounded n (e ∷ m) h b = ground (arith, retain-Bounded n m h b.1)

retain-zero : (m : HashMap ℕ ReputationEntry) → Bounded 0 m → retain decay_entry is_alive m ≡ []
unfolding retain decay_entry is_alive
retain-zero [] b = refl
retain-zero (e ∷ m) b = ground (arith, retain-zero m b.1)

module _ (fl : Float) where
  unfoldable pub decays : ℕ → ReputationManager fl → ReputationManager fl
  decays zero m = m
  decays (suc n) m = decays n (hourly_decay fl m)

  -- Decay ends: where both counters of every entry are at most `n`, and `n * 23` fits a u64, after
  -- `n + 1` hours without new operations no entry is left.
  pub decays_forget :
      (n : ℕ) (m : ReputationManager fl)
      → n * 23 < u64_mod
      → Bounded n m.entries
      → (decays (suc n) m).entries ≡ []
  unfolding decays hourly_decay
  decays_forget zero m h b = retain-zero m.entries b
  decays_forget (suc n) m h b =
      decays_forget n (hourly_decay fl m) (omega arith) (retain-Bounded n m.entries h b)
