-- ===== src/Program/Invariant.antt =====
-- What holds of the running program (bin/bunzo/src/main.rs), whatever the clients submit, whatever
-- the world answers, and in whatever order.
use bunzo.Prelude.{ℕ, ◌≡◌, ◌∙◌, subst, List, [], ◌∷◌, Option, none, some, inl, inr, Option-cases}
use bunzo.Types.Chain.{ChainSpec}
use bunzo.Types.UserOperation.Packing.{UserOperationId, Hasher}
use bunzo.Pool.Entry.{of_chain_spec}
use bunzo.Pool.Store.{OperationPool, remove_by_hash, remove_by_id}
use bunzo.Pool.Contains.{Contains, remove_by_hash-Contains, remove_by_id-Contains}
use bunzo.Pool.History.{removes_hash, removes_id, step_config}
use bunzo.Pool.History
use bunzo.Pool.Reputation.{Float}
use bunzo.Builder.Task.State.{BundlerTask, World}
use bunzo.Builder.Task.Invariant.{Holds, Holds-pool, step-Holds}
use bunzo.Builder.Task.SharedPool.{step_keeps}
use bunzo.Program.{Program, Event, submits, ticks, tick, step, run}
use bunzo.Program.Accepted.{Accepted, Configured, submit-Contains}

-- A bundler that runs keeps the invariant of its state.
abbrev pub Runs : Option BundlerTask → Type 0
Runs none = Unit {0}
Runs (some t) = Holds t.state t

module _ (fl : Float) (env : Hasher) (c : ChainSpec) where
  pub record Invariant (s : Program fl) : Type 0 where
    pub configured : Configured fl env c (of_chain_spec c) s.api
    pub contents : Contains (Accepted env c) s.api.op_pool
    pub bundler_runs : Runs s.bundler

  pub remove_config_hash :
      (p : OperationPool) (h : ℕ)
      → p.config ≡ of_chain_spec c
      → (remove_by_hash p h).0.config ≡ of_chain_spec c
  unfolding History.step
  remove_config_hash p h e = step_config env p (removes_hash h) ∙ e

  pub remove_config_id :
      (p : OperationPool) (i : UserOperationId)
      → p.config ≡ of_chain_spec c
      → (remove_by_id p i).0.config ≡ of_chain_spec c
  unfolding History.step
  remove_config_id p i e = step_config env p (removes_id i) ∙ e

  tick-Invariant :
      (world : World) (s : Program fl) (t : BundlerTask)
      → s.bundler ≡ some t
      → Invariant s
      → Invariant (tick fl env world s t)
  unfolding tick
  tick-Invariant world s t b v =
      let on_pool = record t { pool = s.api.op_pool } in
      let A = Accepted env c in
      let k = v.configured in
      record {
        configured = record {
          spec = k.spec;
          validator_spec = k.validator_spec;
          no_base_fee = k.no_base_fee;
          pool_config =
              step_keeps (λ (p : OperationPool). p.config ≡ of_chain_spec c) remove_config_hash
                remove_config_id env world on_pool k.pool_config;
        };
        contents =
            step_keeps (Contains A) (remove_by_hash-Contains A) (remove_by_id-Contains A) env world
              on_pool v.contents;
        bundler_runs =
            step-Holds env world on_pool
              (Holds-pool t.state t s.api.op_pool (subst Runs b v.bundler_runs));
      }

  step-Invariant :
      (s : Program fl) (event : Event fl) → Invariant s → Invariant (step fl env s event)
  unfolding step
  step-Invariant s (submits uo entry_point) v =
      let (k, contents) =
        submit-Contains fl env c (of_chain_spec c) s.api uo entry_point v.configured v.contents in
      record { configured = k; contents = contents; bundler_runs = v.bundler_runs }
  step-Invariant s (ticks world) v = elim (Option-cases s.bundler) [
    | inl absent ↦ rw (step, absent) v
    | inr (t, present) ↦ rw (step, present) (tick-Invariant world s t present v)
  ]

  pub run-Invariant :
      (s : Program fl) (events : List (Event fl)) → Invariant s → Invariant (run fl env s events)
  unfolding run
  run-Invariant s [] v = v
  run-Invariant s (event ∷ events) v =
      run-Invariant (step fl env s event) events (step-Invariant s event v)
