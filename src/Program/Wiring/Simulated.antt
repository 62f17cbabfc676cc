-- ===== src/Program/Wiring/Simulated.antt =====
-- What the bundler sends is what it simulated (bin/bunzo/src/main.rs, with
-- crates/builder/src/task.rs, proposer.rs, strategy/direct.rs, crates/provider/src/alloy/ and
-- crates/signer/src/local.rs).
use bunzo.Prelude.{ℕ, ◌≡◌, refl, ap, subst, ◌∙◌, some}
use bunzo.Types.UserOperation.Packing.{Hasher}
use bunzo.Provider.Contracts.{Abi}
use bunzo.Provider.Revert.{HexDecoder}
use bunzo.Provider.GasOracle.{ProviderGasOracle}
use bunzo.Signer.Local.{Envelope, LocalSigner, TxEip1559}
use bunzo.Builder.Task.State.{BundlerTask, building, submitting, pending}
use bunzo.Builder.Task.{
  build_bundle_tx, handle, handle_building, handle_submitting, remove_rejected,
}
use bunzo.Builder.Task
use bunzo.Program.Wiring.{Node, world_of, oracle_after, step}
use bunzo.Builder.Task.Passing.{building-submitting, submitting-pending}
use bunzo.Program.Wiring.Made.{WasSimulated, made-WasSimulated}
use bunzo.Program.Wiring.Sent.{WasSent, world, accepted-WasSent}

module _ (Tx Filter Log : Type 0) (abi : Abi) (hex : HexDecoder) (wire : Envelope)
    (signer : LocalSigner) (entry_point : ℕ) where
  -- What the bundler of `main` sends is what it simulated: when a bundler that is building goes on
  -- to the submission at one tick and to the pending state at the next one, then at the second tick
  -- the node took a transaction, signed by the key, that calls the entry point with the next nonce,
  -- and the tracker waits for the hash that the node answered, under that nonce. At the first tick
  -- the node had been asked to simulate the same call, with the same input and fees, where the
  -- limit of the transaction is 5% above the gas of the simulation; it executed the call, or it
  -- refused it with a text that names an operation that could not be dropped, the retries being
  -- used up or the index being out of range.
  pub step-Simulated :
      (env : Hasher) (first second : Node Tx Filter Log) (oracle : ProviderGasOracle)
      (t : BundlerTask)
      → t.chain_spec.entry_point_v0_7 ≡ entry_point
      → t.state ≡ building
      → (step Tx Filter Log abi hex wire signer entry_point env first (oracle, t)).1.state
        ≡ submitting
      → (step Tx Filter Log abi hex wire signer entry_point env second
          (step Tx Filter Log abi hex wire signer entry_point env first (oracle, t))).1.state
        ≡ pending
      → let s = step Tx Filter Log abi hex wire signer entry_point env first (oracle, t) in
        let t' = (step Tx Filter Log abi hex wire signer entry_point env second s).1 in
        (tx : TxEip1559) × WasSimulated Tx Filter Log abi hex wire signer entry_point first t tx
        × WasSent Tx Filter Log abi hex wire signer entry_point second t t' tx
  unfolding step world_of
  step-Simulated env first second oracle t at from proposed sent =
      let one = world Tx Filter Log abi hex wire signer entry_point first oracle in
      let oracle' =
        oracle_after Tx Filter Log abi hex wire signer entry_point first t.state oracle in
      let two = world Tx Filter Log abi hex wire signer entry_point second oracle' in
      let (bundle, made, left) = building-submitting env one t from proposed in
      let t1 : BundlerTask = record t {
        pool = remove_rejected t.pool bundle.rejected_ops;
        current_bundle = some bundle;
        state = submitting;
      } in
      let accepted = subst (λ x. (Task.step env two x).state ≡ pending) left sent in
      let (raw, hash, signed, submitted, tracked) =
        submitting-pending env two t1 bundle refl refl accepted in
      let (tx, was_sent, is) =
        accepted-WasSent Tx Filter Log abi hex wire signer entry_point second oracle' t1
          (Task.step env two (Task.step env one t)) bundle raw hash at signed submitted
          (ap (λ x. (Task.step env two x).tracker) left ∙ tracked) in
      (
        tx,
        made-WasSimulated Tx Filter Log abi hex wire signer entry_point first oracle t bundle tx
            made (ap (λ (x : TxEip1559). x.gas_limit) is)
            (ap (λ (x : TxEip1559). x.max_fee_per_gas) is)
            (ap (λ (x : TxEip1559). x.max_priority_fee_per_gas) is)
            (ap (λ (x : TxEip1559). x.input) is),
        was_sent,
      )
