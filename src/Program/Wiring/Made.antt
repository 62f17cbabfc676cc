-- ===== src/Program/Wiring/Made.antt =====
-- What the node is asked to simulate for a bundle that the bundler of `main` proposes
-- (bin/bunzo/src/main.rs, with crates/builder/src/proposer.rs and
-- crates/provider/src/alloy/bundle_handler.rs).
use Prim.Native.String.{String}
use bunzo.Prelude.{
  ℕ, ◌/◌, ◌≡◌, ap, sym, subst, ◌∙◌, ◌⊎◌, inl, inr, List, none, some, arith, get_elem?, Option-cases,
}
use bunzo.Prelude.Words.{add_u64}
use bunzo.Prelude.Result.{ok, err}
use bunzo.Types.Gas.{GasFees}
use bunzo.Types.UserOperation.Packing.{PackedUserOperation}
use bunzo.Pool.Entry.{PoolEntry}
use bunzo.Provider.Traits.{HandleOpsOut, success, failed_op}
use bunzo.Provider.Contracts.{Abi}
use bunzo.Provider.Revert.{HexDecoder}
use bunzo.Provider.BundleHandler.{
  HandleOpsTx, call_handle_ops, build_handle_ops_tx, handle_ops_error,
}
use bunzo.Provider.GasOracle.{ProviderGasOracle}
use bunzo.Signer.Local.{Envelope, LocalSigner, TxEip1559}
use bunzo.Builder.Proposer.{Bundle, make_bundle, packed, estimate_bundle_gas}
use bunzo.Builder.Proposer.Simulated.{make_bundle-Simulated}
use bunzo.Builder.Task.State.{BundlerTask}
use bunzo.Program.Wiring.{Node, handler, simulate, answers}
use bunzo.Provider.BundleHandler.Answered.{call_handle_ops-success, call_handle_ops-failed}

module _ (Tx Filter Log : Type 0) (abi : Abi) (hex : HexDecoder) (wire : Envelope)
    (signer : LocalSigner) (entry_point : ℕ) where
  -- The call of the entry point that a simulation makes for a transaction that is sent.
  abbrev pub simulated_call : TxEip1559 → (gas : ℕ) → HandleOpsTx
  simulated_call tx gas = record {
    to = entry_point;
    input = tx.input;
    gas_limit = gas;
    max_fee_per_gas = tx.max_fee_per_gas;
    max_priority_fee_per_gas = tx.max_priority_fee_per_gas;
  }

  -- The node was asked to simulate the call of the transaction, with the gas that 5% more make the
  -- limit of the transaction; it executed the call, or an operation of the call failed that could
  -- not be dropped.
  abbrev pub WasSimulated : Node Tx Filter Log → BundlerTask → TxEip1559 → Type 0
  WasSimulated node t tx =
      (attempt : ℕ) × (ops : List PoolEntry) × (gas : ℕ) × (tx.gas_limit ≡ add_u64 gas (gas / 20))
      × (tx.input ≡ abi.encode_handle_ops (packed ops) t.proposer.beneficiary)
      × (((out : List ℕ) × (node.call attempt (simulated_call tx gas) ≡ ok out))
          ⊎ ((text : List ℕ) × (idx : ℕ) × (reason : String) × (node.call attempt
                  (simulated_call tx gas)
                ≡ err text)
              × (handle_ops_error abi hex
                    (handler Tx Filter Log abi hex wire signer entry_point node attempt) text
                  ≡ some (ok (failed_op idx reason)))
              × ((attempt ≡ t.proposer.max_retries) ⊎ (get_elem? ops idx ≡ none))))

  simulate-Answer :
      (node : Node Tx Filter Log) (attempt : ℕ) (ops : List PackedUserOperation)
      (beneficiary gas : ℕ) (fees : GasFees) (out : HandleOpsOut)
      → simulate Tx Filter Log abi hex wire signer entry_point node attempt ops beneficiary gas fees
        ≡ ok out
      → call_handle_ops abi hex
          (handler Tx Filter Log abi hex wire signer entry_point node attempt)
          ops
          beneficiary
          gas
          fees
        ≡ some (ok out)
  unfolding simulate
  simulate-Answer node attempt ops beneficiary gas fees out e =
      elim (Option-cases (
        call_handle_ops abi hex (handler Tx Filter Log abi hex wire signer entry_point node attempt)
          ops beneficiary gas fees)) [
            | inl panics ↦ absurd (ground arith)
            | inr (answer, answered) ↦ ground arith
          ]

  pub made-WasSimulated :
      (node : Node Tx Filter Log) (oracle : ProviderGasOracle) (t : BundlerTask) (bundle : Bundle)
      (tx : TxEip1559)
      → make_bundle
          (answers Tx Filter Log abi hex wire signer entry_point node oracle)
          (record (t.proposer) { pool = t.pool })
        ≡ ok bundle
      → tx.gas_limit ≡ bundle.gas_estimate
      → tx.max_fee_per_gas ≡ bundle.gas_fees.max_fee_per_gas
      → tx.max_priority_fee_per_gas ≡ bundle.gas_fees.max_priority_fee_per_gas
      → tx.input ≡ abi.encode_handle_ops bundle.ops bundle.beneficiary
      → WasSimulated node t tx
  unfolding answers call_handle_ops build_handle_ops_tx
  made-WasSimulated node oracle t bundle tx made gas max_fee tip input =
      let b = record (t.proposer) { pool = t.pool } in
      let env = answers Tx Filter Log abi hex wire signer entry_point node oracle in
      let (fees, told, last) = make_bundle-Simulated env b bundle made in
      let (attempt, ops, le, ops_is, to, fees_is, gas_is, how) = last in
      let total = estimate_bundle_gas b.chain_spec ops in
      let ran = handler Tx Filter Log abi hex wire signer entry_point node attempt in
      let input_is = input ∙ λ i. abi.encode_handle_ops (ops_is i) (to i) in
      let max_fee_is = max_fee ∙ ap (λ (f : GasFees). f.max_fee_per_gas) fees_is in
      let tip_is = tip ∙ ap (λ (f : GasFees). f.max_priority_fee_per_gas) fees_is in
      let asked : build_handle_ops_tx abi hex ran (packed ops) b.beneficiary total fees
          ≡ simulated_call tx total =
        sym (λ i. record {
          to = entry_point;
          input = input_is i;
          gas_limit = total;
          max_fee_per_gas = max_fee_is i;
          max_priority_fee_per_gas = tip_is i;
        }) in
      let answer = simulate-Answer node attempt (packed ops) b.beneficiary total fees in
      (
        attempt,
        ops,
        total,
        gas ∙ gas_is,
        input_is,
        elim how [
          | inl accepted ↦
              let (out, answered) =
                call_handle_ops-success abi hex ran (packed ops) b.beneficiary total fees
                  (answer success accepted) in
              inl (out, subst (λ x. node.call attempt x ≡ ok out) asked answered)
          | inr (idx, reason, failed, why) ↦
              let (text, refused, blames) =
                call_handle_ops-failed abi hex ran (packed ops) b.beneficiary total fees idx reason
                  (answer (failed_op idx reason) failed) in
              inr (
                text,
                idx,
                reason,
                subst (λ x. node.call attempt x ≡ err text) asked refused,
                blames,
                why,
              )
        ],
      )
