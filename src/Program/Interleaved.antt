-- ===== src/Program/Interleaved.antt =====
-- The running program (bin/bunzo/src/main.rs) with the threads between the accesses of the pool: a
-- submission (crates/rpc/src/eth.rs, `send_user_operation`) first validates its operation and later
-- adds it, a step of the bundler task is the moves of Builder/Task/Moves.antt, and any of them can
-- come between any others. `add` and the validation each run as a whole.
pub mod Steps
pub mod Invariant
pub mod Kept
pub mod Ends
pub mod Banned
use bunzo.Prelude.{ℕ, List, [], ◌∷◌, ◌++◌, Option, none, some, not, if◌then◌else◌, get_elem?}
use bunzo.Prelude.Result.{ok, err}
use bunzo.Types.Chain.{is_entry_point}
use bunzo.Types.UserOperation.Packing.{UserOperation, Hasher}
use bunzo.Types.UserOperation as Op
use bunzo.Pool.Store.{add}
use bunzo.Pool.Reputation.{Float}
use bunzo.Pool.Validation.{validate_sync}
use bunzo.Builder.Proposer.{remove_at}
use bunzo.Builder.Task.State.{BundlerTask, World}
use bunzo.Builder.Task.Moves.{Progress, waiting, move}
use bunzo.Rpc.Eth.{EthApi}
use bunzo.Program.{Program}

-- An operation in its context that has been validated, with the base fee that was read for it.
pub record Validated : Type 0 where
  pub user_op : UserOperation
  pub base_fee : ℕ

module _ (fl : Float) where
  -- The program, how far the bundler is in its step, and the submissions that are still to add
  -- their operations.
  pub record System : Type 0 where
    pub program : Program fl
    pub progress : Progress
    pub in_flight : List Validated

  unfoldable pub started : Program fl → System
  started s = record { program = s; progress = waiting; in_flight = [] }

  -- A client submits an operation, one of the submissions in flight adds its operation, or the
  -- bundler moves.
  pub data Event : Type 0 where
    submits : UserOperation → (entry_point : ℕ) → Event
    adds : ℕ → Event
    moves : World → Event

  -- `send_user_operation` up to `add`.
  unfoldable pub submit : Hasher → System → UserOperation → ℕ → System
  submit env s user_op entry_point =
      let api = s.program.api in
      let uo = Op.set_context env user_op entry_point api.chain_spec.id in
      let (validator, verdict) =
        validate_sync fl api.validator (some api.op_pool) uo api.base_fee in
      let s' = record s {
        program = record (s.program) { api = record api { validator = validator } };
      } in
      if not (is_entry_point api.chain_spec entry_point) then s else elim verdict [
        | err e ↦ s'
        | ok _ ↦ record s' {
          in_flight = s.in_flight ++ record { user_op = uo; base_fee = api.base_fee } ∷ [];
        }
      ]

  -- The rest of `send_user_operation` for one of the submissions.
  unfoldable pub add_validated : Hasher → System → ℕ → System
  add_validated env s n = elim (get_elem? s.in_flight n) [
    | none ↦ s
    | some v ↦
        let api = s.program.api in
        record s {
          program = record (s.program) {
            api = record api { op_pool = (add env api.op_pool v.user_op v.base_fee).0 };
          };
          in_flight = remove_at n s.in_flight;
        }
  ]

  -- The task works on the pool of the API, and leaves it there.
  unfoldable pub move_task : Hasher → World → System → BundlerTask → System
  move_task env world s t =
      let (t', progress) = move env world (record t { pool = s.program.api.op_pool }) s.progress in
      record s {
        program = record { api = record (s.program.api) { op_pool = t'.pool }; bundler = some t' };
        progress = progress;
      }

  unfoldable pub step : Hasher → System → Event → System
  unfolding submit add_validated move_task
  step env s (submits user_op entry_point) = submit env s user_op entry_point
  step env s (adds n) = add_validated env s n
  step env s (moves world) = elim s.program.bundler [ none ↦ s | some t ↦ move_task env world s t ]

  unfoldable pub run : Hasher → System → List Event → System
  run env s [] = s
  run env s (event ∷ events) = run env (step env s event) events
