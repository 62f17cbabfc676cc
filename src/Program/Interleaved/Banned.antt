-- ===== src/Program/Interleaved/Banned.antt =====
-- A banned entity in the running program (bin/bunzo/src/main.rs, with crates/pool/src/validation.rs
-- and reputation.rs): nothing lifts the ban.
use bunzo.Prelude.{
  ℕ, ◌<◌, ◌==◌, ◌≡◌, refl, ap, sym, subst, ◌∙◌, inl, inr, List, [], ◌∷◌, some, In, get_elem?,
  Bool-cases, Option-cases,
}
use bunzo.Prelude.Maps.{get}
use bunzo.Prelude.Result.{Result, ok, err, Result-cases}
use bunzo.Types.Chain.{is_entry_point}
use bunzo.Types.Entity.{Entity}
use bunzo.Types.Error.{ValidationError}
use bunzo.Types.UserOperation.Packing.{UserOperation, Hasher}
use bunzo.Types.UserOperation as Op
use bunzo.Pool.Reputation.{Float, ReputationConfig, ReputationManager, banned, status}
use bunzo.Pool.Reputation as Reputation
use bunzo.Pool.Reputation.Standing.{entry_of}
use bunzo.Pool.Validation.{Validator, validate_sync}
use bunzo.Pool.Validation.Banned.{
  NeverIncluded, validate_sync-banned, validate_sync_refuses, validate_sync-NeverIncluded,
  validate_sync_reputation_config, often_seen,
}
use bunzo.Rpc.Eth.{
  EthApi, RpcError, unsupported_entry_point, validation_failed, accept, send_user_operation,
}
use bunzo.Rpc.Eth
use bunzo.Rpc.Server
use bunzo.Program.{CliArgs, Environment, Program, main, new_server}
use bunzo.Program.FromStart.{main-initial}
use bunzo.Program.Interleaved.{
  System, Event, submits, adds, moves, started, submit, add_validated, move_task, step, run,
}

module _ (fl : Float) (env : Hasher) where
  open fl use {of_u64, lt}

  abbrev reputation : System fl → ReputationManager fl
  reputation s = s.program.api.validator.reputation

  -- A property of the counters that every validation keeps.
  module _ (Q : ReputationManager fl → Type 0)
      (keep : (v : Validator fl) (s : System fl) (uo : UserOperation)
        → Q v.reputation
        → Q
            (validate_sync fl v
              (some s.program.api.op_pool)
              uo
              s.program.api.base_fee).0.reputation) where
    submit_keeps :
        (s : System fl) (uo : UserOperation) (entry_point : ℕ)
        → Q (reputation s)
        → Q (reputation (submit fl env s uo entry_point))
    unfolding submit is_entry_point
    submit_keeps s uo entry_point q =
        let api = s.program.api in
        let uo' = Op.set_context env uo entry_point api.chain_spec.id in
        let kept = keep api.validator s uo' q in
        elim (Bool-cases (entry_point == api.chain_spec.entry_point_v0_7)) [
          | inr unknown ↦ rw (submit, is_entry_point, unknown) q
          | inl known ↦
              elim (Result-cases
                (validate_sync fl api.validator (some api.op_pool) uo' api.base_fee).1) [
                  | inr (e, bad) ↦ rw (submit, is_entry_point, known, bad) kept
                  | inl (u, good) ↦ rw (submit, is_entry_point, known, good) kept
                ]
        ]

    step_keeps :
        (s : System fl) (event : Event fl) → Q (reputation s) → Q (reputation (step fl env s event))
    unfolding step add_validated move_task
    step_keeps s (submits uo entry_point) q = submit_keeps s uo entry_point q
    step_keeps s (adds n) q = elim (Option-cases (get_elem? s.in_flight n)) [
      | inl missing ↦ rw (step, add_validated, missing) q
      | inr (v, present) ↦ rw (step, add_validated, present) q
    ]
    step_keeps s (moves world) q = elim (Option-cases s.program.bundler) [
      | inl absent ↦ rw (step, absent) q
      | inr (t, present) ↦ rw (step, move_task, present) q
    ]

    run_keeps :
        (s : System fl) (events : List (Event fl))
        → Q (reputation s)
        → Q (reputation (run fl env s events))
    unfolding run
    run_keeps s [] q = q
    run_keeps s (event ∷ events) q = run_keeps (step fl env s event) events (step_keeps s event q)

  -- A submission that names a banned address.
  refused :
      (api : EthApi fl) (uo : UserOperation) (entry_point : ℕ) (entity : Entity)
      → In entity (Op.entities uo)
      → status fl api.validator.reputation entity.address ≡ banned
      → (e : RpcError) × (send_user_operation fl env api uo entry_point ≡ (api, err e))
  unfolding send_user_operation is_entry_point accept Op.set_context Op.with_hash Op.entities
  refused api uo entry_point entity m b =
      let uo' = Op.set_context env uo entry_point api.chain_spec.id in
      let (e, rejects) =
        validate_sync_refuses fl api.validator (some api.op_pool) uo' api.base_fee entity m b in
      let at_validator =
        ap (λ (x : Validator fl × Result ValidationError (Unit {0})). x.0) rejects in
      let at_verdict = ap (λ (x : Validator fl × Result ValidationError (Unit {0})). x.1) rejects in
      elim (Bool-cases (entry_point == api.chain_spec.entry_point_v0_7)) [
        | inr unknown ↦ (
          unsupported_entry_point entry_point,
          rw (send_user_operation, is_entry_point, unknown) refl,
        )
        | inl known ↦ (
          validation_failed e,
          rw (send_user_operation, is_entry_point, known, accept, at_verdict, at_validator) refl,
        )
      ]

module _ (fl : Float) (env : Hasher) (outside : Environment) (cli : CliArgs) where
  open fl use {of_u64, lt}

  -- The counters that the program starts with.
  main_reputation :
      (s : Program fl)
      → main fl outside cli ≡ ok s
      → s.api.validator.reputation ≡ Reputation.default_manager fl
  unfolding new_server Server.with_providers Eth.with_providers
  main_reputation s e =
      let (chain_id, bundler, same, runs) = main-initial fl env outside cli s e in
      ap (λ (x : Program fl). x.api.validator.reputation) same

  -- Whenever `main` gets the program running, and an address has been counted as seen more than 10
  -- times after some events, then it is banned for ever: after any further events, each submission
  -- of an operation that names the address as its sender, factory or paymaster is answered with an
  -- error and changes nothing.
  pub banned_forever :
      (s : Program fl) (before after : List (Event fl)) (uo : UserOperation) (entry_point : ℕ)
      (entity : Entity)
      → main fl outside cli ≡ ok s
      → 10
        < (entry_of fl
            (reputation fl env (run fl env (started fl s) before))
            entity.address).ops_seen
      → In entity (Op.entities uo)
      → let api = (run fl env (run fl env (started fl s) before) after).program.api in
        (e : RpcError) × (send_user_operation fl env api uo entry_point ≡ (api, err e))
  unfolding Reputation.new Reputation.default_manager started get
  banned_forever s before after uo entry_point entity e often m =
      let a = entity.address in
      let s' = run fl env (started fl s) before in
      let first = main_reputation s e in
      let never : NeverIncluded fl (reputation fl env s') =
        run_keeps fl env (NeverIncluded fl)
          (λ v x uo.
            validate_sync-NeverIncluded fl v (some x.program.api.op_pool) uo x.program.api.base_fee)
          (started fl s) before (subst (NeverIncluded fl) (sym first) (λ a. refl)) in
      let configured : (reputation fl env s').config ≡ Reputation.default_config fl =
        run_keeps fl env (λ (r : ReputationManager fl). r.config ≡ Reputation.default_config fl)
          (λ v x uo same.
            validate_sync_reputation_config fl v (some x.program.api.op_pool) uo
              x.program.api.base_fee
            ∙ same)
          (started fl s) before (ap (λ (r : ReputationManager fl). r.config) first) in
      let is_banned : status fl (reputation fl env s') a ≡ banned =
        often_seen fl (reputation fl env s') a never
          (ap (λ (c : ReputationConfig fl). lt (of_u64 0) c.ban_threshold) configured
            ∙ fl.hundredth_positive)
          (subst
            (λ (c : ReputationConfig fl).
              c.min_ops_for_throttle < (entry_of fl (reputation fl env s') a).ops_seen)
            (sym configured) often) in
      refused fl env (run fl env s' after).program.api uo entry_point entity m (
        run_keeps fl env (λ (r : ReputationManager fl). status fl r a ≡ banned)
          (λ v x uo.
            validate_sync-banned fl v (some x.program.api.op_pool) uo x.program.api.base_fee a)
          s' after is_banned)
