-- ===== src/Program/Mined.antt =====
-- From a bundle on its way to a pool without its operations (bin/bunzo/src/main.rs, with
-- crates/builder/src/task.rs and tracker.rs).
use bunzo.Prelude.{
  ℕ, ◌≡◌, refl, ap, sym, subst, ◌∙◌, true, false, List, [], ◌∷◌, Option, none, some, arith, In, inl,
  inr, unwrap_or,
}
use bunzo.Prelude.Words.{add_u64}
use bunzo.Prelude.Result.{ok}
use bunzo.Types.UserOperation.Packing.{
  UserOperation, PackedUserOperation, UserOperationId, Hasher, pack,
}
use bunzo.Types.UserOperation as Op
use bunzo.Pool.Entry.{PoolEntry}
use bunzo.Pool.Store.{OperationPool, get_by_id}
use bunzo.Pool.Represents.{Represents}
use bunzo.Pool.Reputation.{Float}
use bunzo.Builder.Proposer.{Bundle}
use bunzo.Builder.Tracker.{
  TransactionTracker, Receipt, record_submission, check_pending, next_nonce,
}
use bunzo.Builder.Task.State.{BundlerTask, World, submitting, pending, confirming}
use bunzo.Builder.Task.{
  build_bundle_tx, handle, handle_submitting, handle_pending, remove_bundled_ops, remove_ops,
}
use bunzo.Builder.Task
use bunzo.Builder.Task.Mined.{packed_id, bundled, remove_ops_mined}
use bunzo.Program.{Program, ticks, step, run}
use bunzo.Program.Bundled.{tick_to}

bundled-In :
    (uo : UserOperation) (ops : List PackedUserOperation)
    → In (pack uo) ops
    → bundled (Op.id uo) ops ≡ true
unfolding pack Op.id
bundled-In uo [] m = absurd m
bundled-In uo (op ∷ ops) (inl e) =
    let same : packed_id op ≡ Op.id uo = ap packed_id (sym e) in ground (arith, same)
bundled-In uo (op ∷ ops) (inr m) = ground (arith, bundled-In uo ops m)

module _ (env : Hasher) (t : BundlerTask) (bundle : Bundle)
    (b : t.current_bundle ≡ some bundle) where
  -- The tracker after the submission of the bundle.
  abbrev pub submitted : World → ℕ → TransactionTracker
  submitted world hash =
      record_submission world.now t.tracker hash (next_nonce t.tracker)
        bundle.gas_fees.max_fee_per_gas bundle.gas_fees.max_priority_fee_per_gas

  submitting_step :
      (world : World) (raw : List ℕ) (hash : ℕ)
      → t.state ≡ submitting
      → world.sign_transaction
          (build_bundle_tx world t bundle (next_nonce t.tracker))
          t.chain_spec.id
        ≡ ok raw
      → world.submit raw ≡ ok hash
      → Task.step env world t ≡ record t { tracker = submitted world hash; state = pending }
  unfolding Task.step handle handle_submitting
  submitting_step world raw hash start signed sends =
      let handled : handle_submitting world t
          ≡ (record t { tracker = submitted world hash }, pending) =
        ground (arith, signed) in
      rw (Task.step, handle, start, handled) refl

  -- The transaction of the bundle is mined.
  mined_step :
      (sent world : World) (hash : ℕ) (receipt : Receipt)
      → world.get_receipt hash ≡ ok (some receipt)
      → let t' = record t { tracker = submitted sent hash; state = pending } in
        Task.step env world t' ≡ record t {
          tracker = record (t.tracker) {
            current_nonce = add_u64 (next_nonce t.tracker) 1;
            pending = none;
          };
          state = confirming;
          mined_block = some (unwrap_or receipt.block_number 0);
          pool = remove_ops env t.chain_spec t.pool bundle.ops;
        }
  unfolding Task.step handle handle_pending check_pending record_submission remove_bundled_ops
  mined_step sent world hash receipt got = ground (arith, got)

-- The bundler waits for confirmations.
abbrev pub Confirming : Option BundlerTask → Type 0
Confirming none = ⊥
Confirming (some t) = t.state ≡ confirming

-- The task whose bundle is mined, in a block.
abbrev pub mined_task :
    (env : Hasher) (t : BundlerTask) (bundle : Bundle) (pool : OperationPool) (block : ℕ)
    → BundlerTask
mined_task env t bundle pool block = record t {
  pool = remove_ops env t.chain_spec pool bundle.ops;
  tracker = record (t.tracker) { current_nonce = add_u64 (next_nonce t.tracker) 1; pending = none };
  state = confirming;
  mined_block = some block;
}

-- The program after the two ticks.
pub mined_program :
    (fl : Float) (env : Hasher) (s : Program fl) (t : BundlerTask) (bundle : Bundle)
    (sent world : World) (raw : List ℕ) (hash : ℕ) (receipt : Receipt)
    → s.bundler ≡ some t
    → t.state ≡ submitting
    → t.current_bundle ≡ some bundle
    → sent.sign_transaction (build_bundle_tx sent t bundle (next_nonce t.tracker)) t.chain_spec.id
      ≡ ok raw
    → sent.submit raw ≡ ok hash
    → world.get_receipt hash ≡ ok (some receipt)
    → let t' = mined_task env t bundle s.api.op_pool (unwrap_or receipt.block_number 0) in
      run fl env s (ticks sent ∷ ticks world ∷ [])
      ≡ record { api = record (s.api) { op_pool = t'.pool }; bundler = some t' }
unfolding run build_bundle_tx
mined_program fl env s t bundle sent world raw hash receipt b start has signed sends got =
    let on_pool = record t { pool = s.api.op_pool } in
    let one = submitting_step env on_pool bundle has sent raw hash start signed sends in
    let two = mined_step env on_pool bundle has sent world hash receipt got in
    let next : BundlerTask = record on_pool {
      tracker = submitted env on_pool bundle has sent hash;
      state = pending;
    } in
    let last = mined_task env t bundle s.api.op_pool (unwrap_or receipt.block_number 0) in
    let s1 : Program fl = record { api = s.api; bundler = some next } in
    ap (λ (x : Program fl). step fl env x (ticks world)) (tick_to fl env s t next sent b one)
    ∙ tick_to fl env s1 next last world refl two

-- When the bundler is about to send a bundle, with a consistent pool, its transaction is signed and
-- the node takes it, and the node has a receipt for it at the next tick, then after these two ticks
-- the bundler waits for confirmations, the pool is still consistent, no operation of the bundle is
-- found in it under its identifier, and every identifier that the bundle does not have is answered
-- as before.
pub bundle_mined :
    (fl : Float) (env : Hasher) (s : Program fl) (t : BundlerTask) (bundle : Bundle)
    (l : List PoolEntry) (sent world : World) (raw : List ℕ) (hash : ℕ) (receipt : Receipt)
    → s.bundler ≡ some t
    → t.state ≡ submitting
    → t.current_bundle ≡ some bundle
    → Represents s.api.op_pool l
    → sent.sign_transaction (build_bundle_tx sent t bundle (next_nonce t.tracker)) t.chain_spec.id
      ≡ ok raw
    → sent.submit raw ≡ ok hash
    → world.get_receipt hash ≡ ok (some receipt)
    → let s' = run fl env s (ticks sent ∷ ticks world ∷ []) in
      Confirming s'.bundler
      × ((l' : List PoolEntry) × Represents s'.api.op_pool l')
      × ((uo : UserOperation)
          → In (pack uo) bundle.ops
          → get_by_id s'.api.op_pool (Op.id uo) ≡ none)
      × ((i : UserOperationId)
          → bundled i bundle.ops ≡ false
          → get_by_id s'.api.op_pool i ≡ get_by_id s.api.op_pool i)
bundle_mined fl env s t bundle l sent world raw hash receipt b start has r signed sends got =
    let there =
      mined_program fl env s t bundle sent world raw hash receipt b start has signed sends got in
    let removed =
      λ (i : UserOperationId). remove_ops_mined env t.chain_spec s.api.op_pool l bundle.ops i r in
    let i0 : UserOperationId = record { sender = 0; nonce = 0 } in
    subst
      (λ (x : Program fl).
        Confirming x.bundler
        × ((l' : List PoolEntry) × Represents x.api.op_pool l')
        × ((uo : UserOperation)
            → In (pack uo) bundle.ops
            → get_by_id x.api.op_pool (Op.id uo) ≡ none)
        × ((i : UserOperationId)
            → bundled i bundle.ops ≡ false
            → get_by_id x.api.op_pool i ≡ get_by_id s.api.op_pool i))
      (sym there)
      (
        refl,
        (removed i0).1,
        λ uo m. ground (arith, (removed (Op.id uo)).0, bundled-In uo bundle.ops m),
        λ i absent. ground (arith, (removed i).0, absent),
      )
