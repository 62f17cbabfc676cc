-- ===== src/Program/Delivered.antt =====
-- From a submission to a block (bin/bunzo/src/main.rs, with crates/rpc/src/eth.rs and
-- crates/builder/src/task.rs): the parts of the program when each of them gets its answer.
use bunzo.Prelude.{
  In, ap, Option, ℕ, All, ◌-◌, ◌∙◌, ◌≤◌, ◌≡◌, refl, sym, subst, true, List, [], ◌∷◌, none, some,
  length,
}
use bunzo.Prelude.Result.{ok}
use bunzo.Types.Gas.{GasFees, covers}
use bunzo.Types.UserOperation.Packing.{UserOperation, UserOperationId, Hasher, pack}
use bunzo.Types.UserOperation as Op
use bunzo.Pool.Entry.{PoolEntry}
use bunzo.Pool.Store.{get_by_id}
use bunzo.Pool.Represents.{Represents}
use bunzo.Pool.Reputation.{Float}
use bunzo.Prelude.Words.{add_u64}
use bunzo.Builder.Tracker.{Receipt, next_nonce}
use bunzo.Builder.Proposer.{Bundle}
use bunzo.Builder.Task.State.{
  BundlerTask, World, TransactionRequest, idle, submitting, confirming, confirmed,
}
use bunzo.Builder.Proposer.AllCandidates.{AlwaysAccepts}
use bunzo.Builder.Task.{build_bundle_tx}
use bunzo.Builder.Task.Confirmed.{NotYet, settled, waits_step, confirmed_step, terminal_step}
use bunzo.Rpc.Eth.{EthApi, send_user_operation}
use bunzo.Program.{Program, Event, submits, ticks, run, step}
use bunzo.Program.Bundled.{tick_to, accepted_api, submitted_sends}
use bunzo.Program.Mined.{mined_task, mined_program, bundle_mined}

-- The signer signs each transaction, and the node takes each one under some hash.
abbrev pub Sends : World → Type 0
Sends world =
    ((tx : TransactionRequest) (chain_id : ℕ)
      → (raw : List ℕ) × (world.sign_transaction tx chain_id ≡ ok raw))
    × ((raw : List ℕ) → (hash : ℕ) × (world.submit raw ≡ ok hash))

-- The node has a receipt for each transaction, in the block.
abbrev pub Includes : World → ℕ → Type 0
Includes world block =
    (hash : ℕ) → world.get_receipt hash ≡ ok (some (record { block_number = some block }))

-- Ticks with the worlds one after another, before other events.
abbrev pub ticks_before : {fl : Float} → List World → List (Event fl) → List (Event fl)
ticks_before [] events = events
ticks_before (world ∷ worlds) events = ticks world ∷ ticks_before worlds events

-- The bundler is ready for the next bundle, with the nonce.
abbrev pub Ready : ℕ → Option BundlerTask → Type 0
Ready nonce none = ⊥
Ready nonce (some t) =
    (t.state ≡ idle)
    × (t.current_bundle ≡ none)
    × (t.mined_block ≡ none)
    × (t.tracker.pending ≡ none)
    × (t.tracker.current_nonce ≡ nonce)

-- The program with a task that works on the pool of the API.
abbrev program : {fl : Float} → EthApi fl → BundlerTask → Program fl
program api t = record { api = api; bundler = some (record t { pool = api.op_pool }) }

module _ (fl : Float) (env : Hasher) (api : EthApi fl) (t : BundlerTask) (mined_at : ℕ)
    (at : t.state ≡ confirming) (since : t.mined_block ≡ some mined_at) where
  waiting_ticks :
      (worlds : List World) (events : List (Event fl))
      → All (NotYet t mined_at) worlds
      → run fl env (program api t) (ticks_before worlds events) ≡ run fl env (program api t) events
  unfolding run
  waiting_ticks [] events early = refl
  waiting_ticks (world ∷ worlds) events early =
      let on_pool = record t { pool = api.op_pool } in
      ap (λ (x : Program fl). run fl env x (ticks_before worlds events))
        (tick_to fl env (program api t) on_pool on_pool world refl
          (waits_step env on_pool mined_at at since world early.0))
      ∙ waiting_ticks worlds events early.1

  settling_ticks :
      (fifth last : World) (current : ℕ)
      → fifth.get_block_number ≡ ok current
      → t.confirmation_depth ≤ current - mined_at
      → run fl env (program api t) (ticks fifth ∷ ticks last ∷ []) ≡ program api (settled t)
  unfolding run
  settling_ticks fifth last current told enough =
      let on_pool = record t { pool = api.op_pool } in
      let deep = record t { state = confirmed } in
      ap (λ (x : Program fl). step fl env x (ticks last))
        (tick_to fl env (program api t) on_pool (record on_pool { state = confirmed }) fifth refl
          (confirmed_step env on_pool mined_at at since fifth current told enough))
      ∙ tick_to fl env (program api deep) (record deep { pool = api.op_pool })
          (settled (record t { pool = api.op_pool })) last refl
          (terminal_step env on_pool mined_at at since last)

-- What holds at the end of the life of a bundle that has the operation.
abbrev Settles : {fl : Float} → ℕ → UserOperationId → Program fl → Type 0
Settles nonce i s =
    Ready (add_u64 nonce 1) s.bundler
    × ((l : List PoolEntry) × Represents s.api.op_pool l)
    × (get_by_id s.api.op_pool i ≡ none)

module _ (fl : Float) (env : Hasher) (third fourth fifth last : World) (waits : List World) where
  -- From the submission of the bundle on.
  sending-Settles :
      (api : EthApi fl) (t : BundlerTask) (bundle : Bundle) (op : UserOperation)
      (l : List PoolEntry) (block current : ℕ)
      → t.state ≡ submitting
      → t.current_bundle ≡ some bundle
      → Represents api.op_pool l
      → In (pack op) bundle.ops
      → Sends third
      → Includes fourth block
      → All (NotYet t block) waits
      → fifth.get_block_number ≡ ok current
      → t.confirmation_depth ≤ current - block
      → Settles (next_nonce t.tracker) (Op.id op) (
          run fl env
            (program api t)
            (ticks third ∷ ticks fourth ∷ ticks_before waits (ticks fifth ∷ ticks last ∷ [])))
  unfolding run
  sending-Settles api t bundle op l block current at has r inside sends includes early told enough =
      let on_pool = record t { pool = api.op_pool } in
      let (raw, signed) =
        sends.0 (build_bundle_tx third on_pool bundle (next_nonce t.tracker)) t.chain_spec.id in
      let (hash, takes) = sends.1 raw in
      let receipt : Receipt = record { block_number = some block } in
      let (waiting, consistent, removed, others) =
        bundle_mined fl env (program api t) on_pool bundle l third fourth raw hash receipt refl at
          has r signed takes (includes hash) in
      let there =
        mined_program fl env (program api t) on_pool bundle third fourth raw hash receipt refl at
          has signed takes (includes hash) in
      let confirms = mined_task env on_pool bundle api.op_pool block in
      let api' : EthApi fl = record api { op_pool = confirms.pool } in
      let rest : List (Event fl) = ticks fifth ∷ ticks last ∷ [] in
      let end =
        ap (λ (x : Program fl). run fl env x (ticks_before waits rest)) there
        ∙ waiting_ticks fl env api' confirms block refl refl waits rest early
        ∙ settling_ticks fl env api' confirms block refl refl fifth last current told enough in
      let pool_is = ap (λ (x : Program fl). x.api.op_pool) there in
      subst (Settles (next_nonce t.tracker) (Op.id op)) (sym end) (
        (refl, refl, refl, refl, refl),
        subst (λ x. (l' : List PoolEntry) × Represents x l') pool_is consistent,
        subst (λ x. get_by_id x (Op.id op) ≡ none) pool_is (removed op inside),
      )

module _ (fl : Float) (env : Hasher) (s : Program fl) (t : BundlerTask) (uo : UserOperation)
    (entry_point : ℕ) (first second third fourth fifth last : World) (waits : List World) where
  -- The life of an accepted operation: when a submission to a consistent pool is accepted, all
  -- operations that are then in the pool fit into one bundle, the fees of the operation cover the
  -- minimum tip and the base fee that the oracle answers at the second tick, every simulation then
  -- succeeds, at the third tick the signer signs and the node takes each transaction, at the fourth
  -- one the node has a receipt for each in one block, and after any ticks at which that block is
  -- not known to be deep enough the node tells a block that makes it so, then one tick later the
  -- bundler is idle, with no bundle and no transaction to track, and the next nonce is one higher;
  -- the pool is consistent, and the operation is no longer in it.
  pub submitted_settled :
      (l old : List PoolEntry) (h base_fee block current : ℕ) (fees : GasFees)
      → s.bundler ≡ some t
      → t.state ≡ idle
      → Represents s.api.op_pool old
      → (send_user_operation fl env s.api uo entry_point).1 ≡ ok h
      → Represents (accepted_api fl env s t uo entry_point first second).op_pool l
      → length l ≤ t.proposer.chain_spec.max_bundle_size
      → second.proposer_answers.current_fees ≡ ok fees
      → second.proposer_answers.base_fee ≡ ok base_fee
      → AlwaysAccepts second.proposer_answers
      → covers
          (Op.gas_fees (Op.set_context env uo entry_point s.api.chain_spec.id))
          base_fee
          t.proposer.chain_spec.min_max_priority_fee_per_gas
        ≡ true
      → Sends third
      → Includes fourth block
      → All (NotYet t block) waits
      → fifth.get_block_number ≡ ok current
      → t.confirmation_depth ≤ current - block
      → let s' = run fl env s (
          submits uo entry_point
          ∷ ticks first
          ∷ ticks second
          ∷ ticks third
          ∷ ticks fourth
          ∷ ticks_before waits (ticks fifth ∷ ticks last ∷ [])) in
        Ready (add_u64 (next_nonce t.tracker) 1) s'.bundler
        × ((l' : List PoolEntry) × Represents s'.api.op_pool l')
        × (get_by_id s'.api.op_pool (Op.id (Op.set_context env uo entry_point s.api.chain_spec.id))
            ≡ none)
  unfolding run
  submitted_settled l old h base_fee block current fees b start before done r few f p accepts pays
        sends includes early told enough =
      let accepted = accepted_api fl env s t uo entry_point first second in
      let op = Op.set_context env uo entry_point s.api.chain_spec.id in
      let (bundle, inside, there) =
        submitted_sends fl env s t uo entry_point first second l old h base_fee fees b start before
          done r few f p accepts pays in
      let sending = record t { state = submitting; current_bundle = some bundle } in
      let rest : List (Event fl) =
        ticks third ∷ ticks fourth ∷ ticks_before waits (ticks fifth ∷ ticks last ∷ []) in
      subst (λ (x : Program fl). Settles (next_nonce t.tracker) (Op.id op) (run fl env x rest))
        (sym there)
        (sending-Settles fl env third fourth fifth last waits accepted sending bundle op l block
          current refl refl r inside sends includes early told enough)
