-- ===== src/Builder/Task/Confirmed.antt =====
-- The wait for confirmations (crates/builder/src/task.rs, `handle_confirming` and the terminal states
-- of `step`).
use bunzo.Prelude.{ℕ, ◌-◌, ◌≤◌, ◌<◌, ◌≡◌, refl, none, some, arith, inl, inr}
use bunzo.Prelude.Result.{ok, Result-cases}
use bunzo.Types.UserOperation.Packing.{Hasher}
use bunzo.Builder.Task.State.{BundlerTask, World, confirming, confirmed, idle}
use bunzo.Builder.Task.{handle, handle_confirming, handle_terminal, step}

-- The node tells no block that is deep enough.
abbrev pub NotYet : BundlerTask → ℕ → World → Type 0
NotYet t mined_at world =
    (current : ℕ) → world.get_block_number ≡ ok current → current - mined_at < t.confirmation_depth

-- The task after the bundle.
abbrev pub settled : BundlerTask → BundlerTask
settled t = record t { state = idle; current_bundle = none; mined_block = none }

module _ (env : Hasher) (t : BundlerTask) (mined_at : ℕ) (at : t.state ≡ confirming)
    (since : t.mined_block ≡ some mined_at) where
  pub waits_step : (world : World) → NotYet t mined_at world → step env world t ≡ t
  unfolding step handle handle_confirming
  waits_step world early = elim (Result-cases world.get_block_number) [
    | inr (e, failed) ↦
        let handled : handle_confirming world t ≡ (t, confirming) = ground (arith, since, failed) in
        rw (step, handle, at, handled) refl
    | inl (current, told) ↦
        let too_few = early current told in
        let handled : handle_confirming world t ≡ (t, confirming) =
          ground (arith, since, told, too_few) in
        rw (step, handle, at, handled) refl
  ]

  pub confirmed_step :
      (world : World) (current : ℕ)
      → world.get_block_number ≡ ok current
      → t.confirmation_depth ≤ current - mined_at
      → step env world t ≡ record t { state = confirmed }
  unfolding step handle handle_confirming
  confirmed_step world current told enough =
      let handled : handle_confirming world t ≡ (t, confirmed) =
        ground (arith, since, told, enough) in
      rw (step, handle, at, handled) refl

  pub terminal_step : (world : World) → step env world (record t { state = confirmed }) ≡ settled t
  unfolding step handle handle_terminal
  terminal_step world = refl
