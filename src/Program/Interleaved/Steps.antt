-- ===== src/Program/Interleaved/Steps.antt =====
-- What each event of the running program (bin/bunzo/src/main.rs) keeps, however its threads come
-- between one another.
use bunzo.Prelude.{
  ℕ, zero, suc, ◌==◌, ==_iff, ◌≡◌, ap, ◌∙◌, sym, subst, true, List, [], ◌∷◌, Option, none, some,
  arith, All, All-append, get_elem?, Bool-cases, Option-cases, inl, inr,
}
use bunzo.Prelude.Result.{ok, Result-cases}
use bunzo.Types.Chain.{ChainSpec, is_entry_point}
use bunzo.Types.Gas.{covers}
use bunzo.Types.UserOperation.Packing.{UserOperation, Hasher}
use bunzo.Types.UserOperation as Op
use bunzo.Pool.Entry.{PoolConfig, of_chain_spec, new_entry}
use bunzo.Pool.Store.{OperationPool, add}
use bunzo.Pool.Contains.{Contains, add-Contains, remove_by_hash-Contains, remove_by_id-Contains}
use bunzo.Pool.History.{step_config}
use bunzo.Pool.History
use bunzo.Pool.Reputation.{Float}
use bunzo.Pool.Validation.{validate_sync, validate_static_fields}
use bunzo.Builder.Proposer.{remove_at}
use bunzo.Builder.Task.State.{BundlerTask, World}
use bunzo.Builder.Task.Moves.{Progress}
use bunzo.Builder.Task.Moves.Invariant.{HoldsAt, HoldsAt-pool, move-HoldsAt, move_preserves}
use bunzo.Rpc.Eth.{EthApi}
use bunzo.Program.Accepted.{
  Accepted, Configured, validate_sync-ok, validate_sync_spec, new_entry-Accepted,
}
use bunzo.Program.Invariant.{remove_config_hash, remove_config_id}
use bunzo.Program.Interleaved.{
  Validated, System, Event, submits, adds, moves, submit, add_validated, move_task, step,
}

-- A bundler that runs keeps the invariant of its progress.
abbrev pub RunsAt : List World → Progress → Option BundlerTask → Type 0
RunsAt seen progress none = Unit {0}
RunsAt seen progress (some t) = HoldsAt seen progress t

-- The worlds that the moves saw, the last one first, after those that had been seen before.
abbrev pub worlds_after : {fl : Float} → List (Event fl) → List World → List World
worlds_after [] seen = seen
worlds_after (submits _ _ ∷ events) seen = worlds_after events seen
worlds_after (adds _ ∷ events) seen = worlds_after events seen
worlds_after (moves world ∷ events) seen = worlds_after events (world ∷ seen)

All-get_elem? :
    {A : Type 0} (P : A → Type 0) (n : ℕ) (xs : List A) (a : A)
    → get_elem? xs n ≡ some a
    → All P xs
    → P a
All-get_elem? P n [] a e h = absurd (ground arith)
All-get_elem? P zero (x ∷ xs) a e h = ground (arith, h.0)
All-get_elem? P (suc n) (x ∷ xs) a e h = All-get_elem? P n xs a e h.1

All-remove_at :
    {A : Type 0} (P : A → Type 0) (n : ℕ) (xs : List A) → All P xs → All P (remove_at n xs)
unfolding remove_at
All-remove_at P zero [] h = tt
All-remove_at P (suc n) [] h = tt
All-remove_at P zero (x ∷ xs) h = h.1
All-remove_at P (suc n) (x ∷ xs) h = (h.0, All-remove_at P n xs h.1)

add_config :
    (env : Hasher) (config : PoolConfig) (p : OperationPool) (uo : UserOperation) (base_fee : ℕ)
    → p.config ≡ config
    → (add env p uo base_fee).0.config ≡ config
unfolding History.step
add_config env config p uo base_fee e = step_config env p (History.adds uo base_fee) ∙ e

module _ (fl : Float) (env : Hasher) (c : ChainSpec) where
  -- Whenever it is added, its entry is an accepted one.
  abbrev pub Ready : Validated → Type 0
  Ready v = (sequence : ℕ) → Accepted env c (new_entry env v.user_op v.base_fee sequence)

  pub record Invariant (seen : List World) (s : System fl) : Type 0 where
    pub configured : Configured fl env c (of_chain_spec c) s.program.api
    pub contents : Contains (Accepted env c) s.program.api.op_pool
    pub ready : All Ready s.in_flight
    pub bundler_runs : RunsAt seen s.progress s.program.bundler

  -- The validator is the only part of the API that a validation changes.
  validated-Configured :
      (api : EthApi fl) (uo : UserOperation)
      → Configured fl env c (of_chain_spec c) api
      → Configured fl env c (of_chain_spec c) (record api {
        validator = (validate_sync fl api.validator (some api.op_pool) uo api.base_fee).0;
      })
  validated-Configured api uo k = record {
    spec = k.spec;
    validator_spec =
        validate_sync_spec fl env c api.validator api.op_pool uo api.base_fee ∙ k.validator_spec;
    no_base_fee = k.no_base_fee;
    pool_config = k.pool_config;
  }

  -- What has been validated is ready.
  validated-Ready :
      (api : EthApi fl) (uo : UserOperation) (entry_point : ℕ)
      → let uo' = Op.set_context env uo entry_point api.chain_spec.id in
        Configured fl env c (of_chain_spec c) api
        → (entry_point == api.chain_spec.entry_point_v0_7) ≡ true
        → (validate_sync fl api.validator (some api.op_pool) uo' api.base_fee).1 ≡ ok tt
        → Ready (record { user_op = uo'; base_fee = api.base_fee })
  validated-Ready api uo entry_point k known good sequence =
      let uo' = Op.set_context env uo entry_point api.chain_spec.id in
      let same : entry_point ≡ c.entry_point_v0_7 =
        (==_iff entry_point api.chain_spec.entry_point_v0_7).0 known
        ∙ ap (λ (x : ChainSpec). x.entry_point_v0_7) k.spec in
      let (fields, pays) =
        validate_sync-ok fl env c api.validator api.op_pool uo' api.base_fee good in
      let at_chain = ap (λ (x : ChainSpec). Op.set_context env uo entry_point x.id) k.spec in
      let fields' : validate_static_fields c (Op.set_context env uo entry_point c.id) ≡ ok tt =
        subst (λ x. validate_static_fields c x ≡ ok tt) at_chain
          (subst (λ x. validate_static_fields x uo' ≡ ok tt) k.validator_spec fields) in
      let pays' : covers (Op.gas_fees (Op.set_context env uo entry_point c.id)) 0
            c.min_max_priority_fee_per_gas
          ≡ true =
        subst (λ x. covers (Op.gas_fees x) 0 c.min_max_priority_fee_per_gas ≡ true) at_chain
          (rw (k.validator_spec, k.no_base_fee) at pays) in
      subst (λ x. Accepted env c (new_entry env x api.base_fee sequence)) (sym at_chain)
        (new_entry-Accepted fl env c uo entry_point api.base_fee sequence same fields' pays')

  submit-Invariant :
      (seen : List World) (s : System fl) (uo : UserOperation) (entry_point : ℕ)
      → Invariant seen s
      → Invariant seen (submit fl env s uo entry_point)
  unfolding submit is_entry_point
  submit-Invariant seen s uo entry_point v =
      let api = s.program.api in
      let uo' = Op.set_context env uo entry_point api.chain_spec.id in
      let k = validated-Configured api uo' v.configured in
      elim (Bool-cases (entry_point == api.chain_spec.entry_point_v0_7)) [
        | inr unknown ↦ rw (submit, is_entry_point, unknown) v
        | inl known ↦
            elim (Result-cases
              (validate_sync fl api.validator (some api.op_pool) uo' api.base_fee).1) [
                | inr (e, bad) ↦
                    rw (submit, is_entry_point, known, bad)
                      (record {
                        configured = k;
                        contents = v.contents;
                        ready = v.ready;
                        bundler_runs = v.bundler_runs;
                      })
                | inl (u, good) ↦
                    rw (submit, is_entry_point, known, good)
                      (record {
                        configured = k;
                        contents = v.contents;
                        ready =
                            All-append Ready s.in_flight _ v.ready
                              (validated-Ready api uo entry_point v.configured known good, tt);
                        bundler_runs = v.bundler_runs;
                      })
              ]
      ]

  add-Invariant :
      (seen : List World) (s : System fl) (n : ℕ)
      → Invariant seen s
      → Invariant seen (add_validated fl env s n)
  unfolding add_validated
  add-Invariant seen s n v = elim (Option-cases (get_elem? s.in_flight n)) [
    | inl missing ↦ rw (add_validated, missing) v
    | inr (w, present) ↦
        let api = s.program.api in
        let k = v.configured in
        rw (add_validated, present)
          (record {
            configured = record {
              spec = k.spec;
              validator_spec = k.validator_spec;
              no_base_fee = k.no_base_fee;
              pool_config =
                  add_config env (of_chain_spec c) api.op_pool w.user_op w.base_fee k.pool_config;
            };
            contents =
                add-Contains (Accepted env c) env api.op_pool w.user_op w.base_fee
                  (All-get_elem? Ready n s.in_flight w present v.ready api.op_pool.next_sequence)
                  v.contents;
            ready = All-remove_at Ready n s.in_flight v.ready;
            bundler_runs = v.bundler_runs;
          })
  ]

  move-Invariant :
      (seen : List World) (world : World) (s : System fl) (t : BundlerTask)
      → s.program.bundler ≡ some t
      → Invariant seen s
      → Invariant (world ∷ seen) (move_task fl env world s t)
  unfolding move_task
  move-Invariant seen world s t b v =
      let api = s.program.api in
      let on_pool = record t { pool = api.op_pool } in
      let A = Accepted env c in
      let k = v.configured in
      record {
        configured = record {
          spec = k.spec;
          validator_spec = k.validator_spec;
          no_base_fee = k.no_base_fee;
          pool_config =
              move_preserves env world (λ (p : OperationPool). p.config ≡ of_chain_spec c)
                (remove_config_hash fl env c) (remove_config_id fl env c) on_pool s.progress
                k.pool_config;
        };
        contents =
            move_preserves env world (Contains A) (remove_by_hash-Contains A)
              (remove_by_id-Contains A) on_pool s.progress v.contents;
        ready = v.ready;
        bundler_runs = move-HoldsAt env world seen on_pool s.progress (
            HoldsAt-pool seen s.progress t api.op_pool
              (subst (RunsAt seen s.progress) b v.bundler_runs));
      }

  pub step-Invariant :
      (seen : List World) (s : System fl) (event : Event fl)
      → Invariant seen s
      → Invariant (worlds_after (event ∷ []) seen) (step fl env s event)
  unfolding step
  step-Invariant seen s (submits uo entry_point) v = submit-Invariant seen s uo entry_point v
  step-Invariant seen s (adds n) v = add-Invariant seen s n v
  step-Invariant seen s (moves world) v = elim (Option-cases s.program.bundler) [
    | inl absent ↦
        rw (step, absent)
          (record {
            configured = v.configured;
            contents = v.contents;
            ready = v.ready;
            bundler_runs = subst (RunsAt (world ∷ seen) s.progress) (sym absent) tt;
          })
    | inr (t, present) ↦ rw (step, present) (move-Invariant seen world s t present v)
  ]
