-- ===== src/Program/Bundled.antt =====
-- From a submission to a bundle (bin/bunzo/src/main.rs, with crates/rpc/src/eth.rs and
-- crates/builder/src/task.rs).
use bunzo.Prelude.{
  ℕ, ◌≤◌, ◌≡◌, refl, ap, sym, subst, ◌∙◌, true, false, ◌==◌, List, [], ◌∷◌, Option, none, some,
  arith, length, In,
}
use bunzo.Prelude.Maps.{get}
use bunzo.Prelude.Result.{ok}
use bunzo.Types.Gas.{GasFees, covers}
use bunzo.Types.UserOperation.Packing.{UserOperation, PackedUserOperation, Hasher, pack}
use bunzo.Types.UserOperation as Op
use bunzo.Pool.Entry.{PoolEntry, new_entry}
use bunzo.Pool.Contents.{hash_index, find_hash}
use bunzo.Pool.Store.{size, get_by_hash}
use bunzo.Pool.Represents.{Represents, size-length}
use bunzo.Pool.Reputation.{Float}
use bunzo.Builder.Proposer.{Bundle, is_empty}
use bunzo.Builder.Proposer.AllCandidates.{AlwaysAccepts, make_bundle-In}
use bunzo.Builder.Task.State.{BundlerTask, World, idle, building, submitting}
use bunzo.Builder.Task.{handle, handle_idle, handle_building, remove_rejected}
use bunzo.Builder.Task
use bunzo.Rpc.Eth.{EthApi, send_user_operation}
use bunzo.Rpc.Submit.{accept_accepted, send_to_entry_point, accepted_entry_point}
use bunzo.Program.{Program, submits, ticks, tick, step, run}

In-find_hash : (h : ℕ) (l : List PoolEntry) (e : PoolEntry) → find_hash h l ≡ some e → In e l
unfolding hash_index get
In-find_hash h [] e f = cc
In-find_hash h (x ∷ l) e f = ground (arith, In-find_hash h l e)

not_empty : (l : List PoolEntry) (e : PoolEntry) → In e l → (length l == 0) ≡ false
not_empty [] e m = absurd m
not_empty (x ∷ l) e m = ground arith

is_empty-In : (b : Bundle) (op : PackedUserOperation) → In op b.ops → is_empty b ≡ false
unfolding is_empty
is_empty-In b op m = go b.ops m
  where
    go : (ops : List PackedUserOperation) → In op ops → (length ops == 0) ≡ false
    go [] m = absurd m
    go (x ∷ ops) m = ground arith

module _ (env : Hasher) (t : BundlerTask) (l : List PoolEntry) (e : PoolEntry)
    (r : Represents t.pool l) (m : In e l) where
  idle_builds :
      (world : World) → t.state ≡ idle → Task.step env world t ≡ record t { state = building }
  unfolding Task.step handle handle_idle
  idle_builds world start =
      let filled : (size t.pool == 0) ≡ false = rw (size-length t.pool l r) (not_empty l e m) in
      rw (Task.step, handle, start, handle_idle, filled) refl

  building_submits :
      (world : World) (fees : GasFees) (base_fee : ℕ)
      → t.state ≡ building
      → world.proposer_answers.current_fees ≡ ok fees
      → world.proposer_answers.base_fee ≡ ok base_fee
      → AlwaysAccepts world.proposer_answers
      → length l ≤ t.proposer.chain_spec.max_bundle_size
      → covers (Op.gas_fees e.uo) base_fee t.proposer.chain_spec.min_max_priority_fee_per_gas ≡ true
      → (bundle : Bundle) × In (pack e.uo) bundle.ops
        × (Task.step env world t ≡ record t { state = submitting; current_bundle = some bundle })
  unfolding Task.step handle handle_building remove_rejected
  building_submits world fees base_fee start f p accepts few pays =
      let (bundle, made, inside, none_rejected) =
        make_bundle-In world.proposer_answers (record (t.proposer) { pool = t.pool }) accepts fees
          base_fee l e f p r few pays m in
      (
        bundle,
        inside,
        rw
            (
              Task.step,
              handle,
              start,
              handle_building,
              made,
              is_empty-In bundle (pack e.uo) inside,
              none_rejected,
            )
            refl,
      )

-- A tick of a task whose step is known.
pub tick_to :
    (fl : Float) (env : Hasher) (s : Program fl) (t t' : BundlerTask) (world : World)
    → s.bundler ≡ some t
    → Task.step env world (record t { pool = s.api.op_pool }) ≡ t'
    → step fl env s (ticks world)
      ≡ record { api = record (s.api) { op_pool = t'.pool }; bundler = some t' }
unfolding step tick
tick_to fl env s t t' world b e = rw (step, b, tick, e) refl

-- The program has a bundle on the way that holds the operation.
abbrev pub Sending : Option BundlerTask → UserOperation → Type 0
Sending none uo = ⊥
Sending (some t) uo =
    (t.state ≡ submitting)
    × (bundle : Bundle) × (t.current_bundle ≡ some bundle)
    × In (pack uo) bundle.ops

module _ (fl : Float) (env : Hasher) (s : Program fl) (t : BundlerTask) (uo : UserOperation)
    (entry_point : ℕ) (first_world second_world : World) where
  -- The API after the submission, and the operation as it was accepted.
  abbrev pub accepted_api : EthApi fl
  accepted_api = (send_user_operation fl env s.api uo entry_point).0

  abbrev pub accepted_op : UserOperation
  accepted_op = Op.set_context env uo entry_point s.api.chain_spec.id

  accepted_In :
      (l old : List PoolEntry) (h : ℕ)
      → Represents s.api.op_pool old
      → (send_user_operation fl env s.api uo entry_point).1 ≡ ok h
      → Represents accepted_api.op_pool l
      → In (new_entry env accepted_op s.api.base_fee s.api.op_pool.next_sequence) l
  unfolding get_by_hash
  accepted_In l old h before done r =
      let known = accepted_entry_point fl env s.api uo entry_point h done in
      let sent = send_to_entry_point fl env s.api uo entry_point known in
      let (_, found, _) =
        accept_accepted fl env s.api accepted_op old h before (ap (λ x. x.1) (sym sent) ∙ done) in
      let entry = new_entry env accepted_op s.api.base_fee s.api.op_pool.next_sequence in
      In-find_hash h l entry (ground (arith, found, sent, r.by_hash_is))

  two_ticks :
      (bundle : Bundle)
      → let on_pool = record t { pool = accepted_api.op_pool } in
        s.bundler ≡ some t
        → Task.step env first_world on_pool ≡ record on_pool { state = building }
        → Task.step env second_world (record on_pool { state = building })
          ≡ record on_pool { state = submitting; current_bundle = some bundle }
        → (run fl env s (submits uo entry_point ∷ ticks first_world ∷ ticks second_world ∷ []))
          ≡ record {
            api = accepted_api;
            bundler = some (record on_pool { state = submitting; current_bundle = some bundle });
          }
  unfolding run step tick
  two_ticks bundle b one two =
      let s1 = step fl env s (submits uo entry_point) in
      let built = record t { pool = accepted_api.op_pool; state = building } in
      let sent = record built { state = submitting; current_bundle = some bundle } in
      let s2 : Program fl = record { api = s1.api; bundler = some built } in
      ap (λ (x : Program fl). step fl env x (ticks second_world))
        (tick_to fl env s1 t built first_world b one)
      ∙ tick_to fl env s2 built sent second_world refl two

  -- The program two ticks after the submission.
  pub submitted_sends :
      (l old : List PoolEntry) (h base_fee : ℕ) (fees : GasFees)
      → s.bundler ≡ some t
      → t.state ≡ idle
      → Represents s.api.op_pool old
      → (send_user_operation fl env s.api uo entry_point).1 ≡ ok h
      → Represents accepted_api.op_pool l
      → length l ≤ t.proposer.chain_spec.max_bundle_size
      → second_world.proposer_answers.current_fees ≡ ok fees
      → second_world.proposer_answers.base_fee ≡ ok base_fee
      → AlwaysAccepts second_world.proposer_answers
      → covers (Op.gas_fees accepted_op) base_fee t.proposer.chain_spec.min_max_priority_fee_per_gas
        ≡ true
      → let on_pool = record t { pool = accepted_api.op_pool } in
        (bundle : Bundle) × In (pack accepted_op) bundle.ops
        × (run fl env s (submits uo entry_point ∷ ticks first_world ∷ ticks second_world ∷ [])
            ≡ record {
              api = accepted_api;
              bundler = some (record on_pool { state = submitting; current_bundle = some bundle });
            })
  unfolding new_entry
  submitted_sends l old h base_fee fees b start before done r few f p accepts pays =
      let on_pool = record t { pool = accepted_api.op_pool } in
      let entry = new_entry env accepted_op s.api.base_fee s.api.op_pool.next_sequence in
      let m = accepted_In l old h before done r in
      let one = idle_builds env on_pool l entry r m first_world start in
      let (bundle, inside, two) =
        building_submits env (record on_pool { state = building }) l entry r m second_world fees
          base_fee refl f p accepts few pays in
      (bundle, inside, two_ticks bundle b one two)

  -- An idle bundler sends what was accepted: when a submission to a consistent pool is accepted,
  -- all operations that are then in the pool fit into one bundle, the fees of the operation cover
  -- the minimum tip and the base fee that the oracle answers at the second tick, and every
  -- simulation then succeeds, then after two ticks a non-empty bundle that holds the operation is
  -- about to be sent.
  pub submitted_Sending :
      (l old : List PoolEntry) (h base_fee : ℕ) (fees : GasFees)
      → s.bundler ≡ some t
      → t.state ≡ idle
      → Represents s.api.op_pool old
      → (send_user_operation fl env s.api uo entry_point).1 ≡ ok h
      → Represents accepted_api.op_pool l
      → length l ≤ t.proposer.chain_spec.max_bundle_size
      → second_world.proposer_answers.current_fees ≡ ok fees
      → second_world.proposer_answers.base_fee ≡ ok base_fee
      → AlwaysAccepts second_world.proposer_answers
      → covers (Op.gas_fees accepted_op) base_fee t.proposer.chain_spec.min_max_priority_fee_per_gas
        ≡ true
      → Sending
          (run fl env s
            (submits uo entry_point ∷ ticks first_world ∷ ticks second_world ∷ [])).bundler
          accepted_op
  submitted_Sending l old h base_fee fees b start before done r few f p accepts pays =
      let (bundle, inside, there) =
        submitted_sends l old h base_fee fees b start before done r few f p accepts pays in
      subst (λ (x : Program fl). Sending x.bundler accepted_op) (sym there)
        (refl, bundle, refl, inside)
