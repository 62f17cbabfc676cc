-- ===== src/Tests/Interleaved.antt =====
-- The theorems on the program whose threads come between one another, on the chain for development.
use bunzo.Prelude.{
  In, inl, ℕ, zero, suc, ◌≤◌, ◌≡◌, refl, ◌⊎◌, List, [], ◌∷◌, none, some, arith, All, length,
}
use bunzo.Prelude.Result.{ok, err}
use bunzo.Types.Entity.{Entity, account}
use bunzo.Rpc.Eth.{RpcError, send_user_operation}
use bunzo.Types.UserOperation.Packing.{UserOperation, UserOperationId}
use bunzo.Types.UserOperation as Op
use bunzo.Pool.Store.{size}
use bunzo.Pool.Contains.{Contains}
use bunzo.Pool.Found.{Found}
use bunzo.Provider.Traits.{HandleOpsOut, success, failed_op}
use bunzo.Builder.Proposer.{Answers}
use bunzo.Builder.Task.State.{BundlerTask, World, idle, building}
use bunzo.Builder.Task
use bunzo.Builder.Task.Moves.{waiting, move, moves_left}
use bunzo.Builder.Task.Moves
use bunzo.Builder.Task.Moves.Alone.{moves-step}
use bunzo.Builder.Task.Stuck.{Refuses, refused_stays}
use bunzo.Program.Accepted.{Accepted}
use bunzo.Program.Interleaved.{System, Event, submits, adds, moves, started, run}
use bunzo.Program.Interleaved.Steps.{RunsAt, worlds_after}
use bunzo.Program.Interleaved.Invariant.{interleaved-run}
use bunzo.Program.Interleaved.Banned.{banned_forever}
use bunzo.Program.Interleaved.Kept.{Leaves, kept-run}
use bunzo.Tests.Data.{hasher, fractions, op_b, op_next}
use bunzo.Tests.Builder.{fees}
use bunzo.Tests.Bundler.{world}
use bunzo.Tests.Bundler
use bunzo.Tests.Program.{cli, outside, running}
use bunzo.Program.Interleaved.Ends.{Rounds, moves_among, step_ends}
use bunzo.Tests.Rpc.{api, submissions}

-- The first simulation of a bundle names its first operation, the next one succeeds.
abbrev first_fails : ℕ → HandleOpsOut
first_fails zero = failed_op 0 "AA23 reverted"
first_fails (suc attempt) = success

abbrev choosy : Answers
choosy = record {
  current_fees = ok fees;
  base_fee = ok 5;
  call_handle_ops = λ attempt ops beneficiary gas f. ok (first_fails attempt);
}

abbrev choosy_world : World
choosy_world = record world { proposer_answers = choosy }

-- The operation of `op_next`, replaced.
abbrev op_better : UserOperation
op_better = record op_next { max_fee_per_gas = 1200; call_data = 2 ∷ [] }

-- An operation of another sender that comes after it.
abbrev op_low : UserOperation
op_low = record op_b { max_priority_fee_per_gas = 1 }

abbrev before : List (Event fractions)
before = submits op_next 0 ∷ adds 0 ∷ submits op_low 0 ∷ adds 0 ∷ []

-- The replacement comes between the simulation and the removal of what it rejected.
abbrev after : List (Event fractions)
after =
    moves choosy_world
    ∷ moves choosy_world
    ∷ submits op_better 0
    ∷ adds 0
    ∷ moves choosy_world
    ∷ moves choosy_world
    ∷ []

abbrev id_next : UserOperationId
id_next = Op.id op_next

-- The functions that the start and the events compute.
unfoldable runs : Unit {0}
unfolding running submissions run started bunzo.Program.Interleaved.step bunzo.Program.main
    bunzo.Program.resolve_chain_id bunzo.Program.start_bundler bunzo.Builder.Task.start
    bunzo.Program.chain_spec_of bunzo.Pool.Reputation.default_manager bunzo.Pool.Reputation.new
    bunzo.Program.new_server bunzo.Rpc.Server.with_providers bunzo.Rpc.Eth.with_providers
    bunzo.Pool.Entry.of_chain_spec bunzo.Pool.Store.store bunzo.Pool.Entry.new_entry
    bunzo.Builder.Tracker.initialize bunzo.Builder.Task.State.new bunzo.Builder.Proposer.new
    bunzo.Pool.Validation.record_all bunzo.Prelude.Maps.insert bunzo.Prelude.Maps.remove
    bunzo.Builder.Proposer.remove_at bunzo.Pool.Store.increment bunzo.Pool.Ordered.insert
    bunzo.Pool.Store.remove_inner bunzo.Pool.Store.min_bump bunzo.Pool.Store.remove_by_hash
    bunzo.Builder.Task.Moves.move bunzo.Builder.Task.step bunzo.Builder.Task.handle
    bunzo.Builder.Task.handle_idle bunzo.Builder.Task.Moves.begin_building
    bunzo.Builder.Proposer.make_bundle bunzo.Builder.Proposer.candidates
    bunzo.Pool.Store.best_operations bunzo.Builder.Proposer.propose bunzo.Builder.Proposer.retry
    bunzo.Builder.Proposer.attempt_once bunzo.Builder.Proposer.bundle_of
    bunzo.Builder.Proposer.is_empty bunzo.Pool.Entry.cmp Op.effective_gas_price
    bunzo.Types.Gas.effective_gas_price bunzo.Pool.Store.decrement bunzo.Pool.Ordered.remove
    bunzo.Builder.Proposer.estimate_bundle_gas bunzo.Builder.Proposer.sum_gas Op.total_gas_limit
    bunzo.Pool.Reputation.record_seen bunzo.Pool.Reputation.entry_status
runs = tt

moves-step_example :
    let t = record Bundler.started { state = building } in
    let first = move hasher choosy_world t waiting in
    Moves.moves hasher choosy_world (moves_left first.1) first
    ≡ (Task.step hasher choosy_world t, waiting)
moves-step_example = moves-step hasher choosy_world (record Bundler.started { state = building })

interleaved-run_example :
    let s' = run fractions hasher (started fractions running) after in
    Contains (Accepted hasher running.api.chain_spec) s'.program.api.op_pool
    × (size s'.program.api.op_pool ≤ 4)
    × (s'.program.api.chain_spec ≡ running.api.chain_spec)
    × (running.api.chain_spec.entry_point_v0_7 ≡ 0)
    × RunsAt (worlds_after after []) s'.progress s'.program.bundler
unfolding running bunzo.Program.main bunzo.Program.resolve_chain_id bunzo.Program.start_bundler
    bunzo.Builder.Task.start
interleaved-run_example = interleaved-run fractions hasher outside cli running after refl

kept-run_example :
    let s' = run fractions hasher (started fractions running) before in
    Found id_next (run fractions hasher s' after).program.api.op_pool
    ⊎ Leaves fractions hasher id_next (worlds_after before []) s' after
unfolding runs
kept-run_example = kept-run fractions hasher outside cli running before after id_next refl refl

-- The replacement is there at the end, in a pool of two operations.
replaced :
    let s' = run fractions hasher (run fractions hasher (started fractions running) before) after in
    Found id_next s'.program.api.op_pool × (size s'.program.api.op_pool ≡ 2)
unfolding runs
replaced = (refl, refl)

abbrev refusing : World
refusing = record world {
  proposer_answers = record choosy {
    call_handle_ops = λ attempt ops beneficiary gas f. ok (failed_op 0 "AA23 reverted");
  };
}

abbrev patient : BundlerTask
patient = record Bundler.started {
  proposer = record (Bundler.started.proposer) { max_retries = 3 };
}

refuses : Refuses refusing
refuses = ("AA23 reverted", λ attempt ops beneficiary gas f. refl)

refused_stays_example :
    (Task.run hasher patient (refusing ∷ refusing ∷ refusing ∷ [])
      ≡ record patient { state = idle })
    ⊎ (Task.run hasher patient (refusing ∷ refusing ∷ refusing ∷ [])
        ≡ record patient { state = building })
unfolding runs
refused_stays_example =
    refused_stays hasher patient (refusing ∷ refusing ∷ refusing ∷ []) refl (omega arith)
      (refuses, (refuses, (refuses, tt)))

-- More operations of one sender than the counters allow before one is included.
abbrev submitted : ℕ → List (Event fractions)
submitted zero = adds 0 ∷ []
submitted (suc n) = submits op_next 0 ∷ submitted n

abbrev often : List (Event fractions)
often = submitted 11

abbrev sender : Entity
sender = record { kind = account; address = 7 }

banned_forever_example :
    let s' = run fractions hasher (started fractions running) often in
    let api = (run fractions hasher s' after).program.api in
    (e : RpcError) × (send_user_operation fractions hasher api op_next 0 ≡ (api, err e))
unfolding runs
banned_forever_example =
    banned_forever fractions hasher outside cli running often after op_next 0 sender refl
      (omega arith) (inl refl)

abbrev builder : BundlerTask
builder = record Bundler.started { state = building }

abbrev proposing : System fractions
proposing = record {
  program = record { api = api; bundler = some builder };
  progress = waiting;
  in_flight = [];
}

step_ends_example :
    (n : ℕ) × Rounds builder n
    × ((events : List (Event fractions))
        → moves_among events ≡ n
        → (run fractions hasher proposing (moves choosy_world ∷ events)).progress ≡ waiting)
step_ends_example = step_ends fractions hasher proposing builder choosy_world refl refl
