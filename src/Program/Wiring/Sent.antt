-- ===== src/Program/Wiring/Sent.antt =====
-- What the node takes when the bundler of `main` sends a bundle (bin/bunzo/src/main.rs, with
-- crates/builder/src/task.rs, strategy/direct.rs and crates/signer/src/local.rs).
use Prim.Native.String.{String}
use bunzo.Prelude.{ℕ, ◌≡◌, refl, ap, sym, ◌∙◌, inl, inr, List, some, arith}
use bunzo.Prelude.Result.{Result, ok, err, Result-cases}
use bunzo.Provider.Contracts.{Abi}
use bunzo.Provider.Revert.{HexDecoder}
use bunzo.Provider.GasOracle.{ProviderGasOracle}
use bunzo.Signer.Local.{Envelope, LocalSigner, TxEip1559}
use bunzo.Signer.Local.Wire.{sign_transaction-build_bundle_tx}
use bunzo.Builder.Strategy.{submit_direct}
use bunzo.Builder.Tracker.{PendingTransaction, TransactionTracker, next_nonce, record_submission}
use bunzo.Builder.Proposer.{Bundle}
use bunzo.Builder.Task.State.{BundlerTask, World}
use bunzo.Builder.Task.{build_bundle_tx}
use bunzo.Program.Wiring.{Node, send_raw, world_of}

submit_direct-ok :
    (reply : Result String ℕ) (hash : ℕ) → submit_direct reply ≡ ok hash → reply ≡ ok hash
unfolding submit_direct
submit_direct-ok (ok h) hash e = ground arith
submit_direct-ok (err msg) hash e = absurd (ground arith)

module _ (Tx Filter Log : Type 0) (abi : Abi) (hex : HexDecoder) (wire : Envelope)
    (signer : LocalSigner) (entry_point : ℕ) where
  abbrev pub world : Node Tx Filter Log → ProviderGasOracle → World
  world node oracle = world_of Tx Filter Log abi hex wire signer entry_point node oracle

  -- The node took a signed transaction, and the tracker waits for it under the next nonce.
  abbrev pub WasSent : Node Tx Filter Log → BundlerTask → BundlerTask → TxEip1559 → Type 0
  WasSent node t t' tx =
      (raw : List ℕ) × (signature hash : ℕ) × (p : PendingTransaction) × (wire.decode raw
        ≡ some (tx, signature))
      × (signer.sign_hash (wire.signature_hash tx) ≡ ok signature)
      × (node.client.send_raw_transaction raw ≡ ok hash)
      × (tx.to ≡ some entry_point)
      × (tx.nonce ≡ next_nonce t.tracker)
      × (t'.tracker.pending ≡ some p)
      × (p.tx_hash ≡ hash)
      × (p.nonce ≡ tx.nonce)

  send_raw-ok :
      (node : Node Tx Filter Log) (raw : List ℕ) (hash : ℕ)
      → send_raw Tx Filter Log abi hex wire signer entry_point node raw ≡ ok hash
      → node.client.send_raw_transaction raw ≡ ok hash
  unfolding send_raw
  send_raw-ok node raw hash e = elim (Result-cases (node.client.send_raw_transaction raw)) [
    | inl (h, sent) ↦ ground (arith, sent)
    | inr (x, refused) ↦ absurd (ground (arith, refused))
  ]

  -- The signed transaction of a bundle that the node took.
  pub accepted-WasSent :
      (node : Node Tx Filter Log) (oracle : ProviderGasOracle) (t t' : BundlerTask)
      (bundle : Bundle) (raw : List ℕ) (hash : ℕ)
      → t.chain_spec.entry_point_v0_7 ≡ entry_point
      → (world node oracle).sign_transaction
          (build_bundle_tx (world node oracle) t bundle (next_nonce t.tracker))
          t.chain_spec.id
        ≡ ok raw
      → (world node oracle).submit raw ≡ ok hash
      → t'.tracker
        ≡ record_submission node.now t.tracker hash
            (next_nonce t.tracker)
            bundle.gas_fees.max_fee_per_gas
            bundle.gas_fees.max_priority_fee_per_gas
      → (tx : TxEip1559) × WasSent node t t' tx
        × (tx ≡ record {
          chain_id = t.chain_spec.id;
          nonce = next_nonce t.tracker;
          gas_limit = bundle.gas_estimate;
          max_fee_per_gas = bundle.gas_fees.max_fee_per_gas;
          max_priority_fee_per_gas = bundle.gas_fees.max_priority_fee_per_gas;
          to = some t.chain_spec.entry_point_v0_7;
          value = 0;
          input = abi.encode_handle_ops bundle.ops bundle.beneficiary;
        })
  unfolding world_of record_submission
  accepted-WasSent node oracle t t' bundle raw hash at signed submitted tracked =
      let (tx, signature, decoded, by_key, is) =
        sign_transaction-build_bundle_tx wire signer (world node oracle) t bundle
          (next_nonce t.tracker) raw signed in
      let taken =
        submit_direct-ok (send_raw Tx Filter Log abi hex wire signer entry_point node raw) hash
          submitted in
      let nonce_is = ap (λ (x : TxEip1559). x.nonce) is in
      let p : PendingTransaction = record {
        tx_hash = hash;
        nonce = next_nonce t.tracker;
        escalation_count = 0;
        submitted_at = node.now;
        max_fee_per_gas = bundle.gas_fees.max_fee_per_gas;
        max_priority_fee_per_gas = bundle.gas_fees.max_priority_fee_per_gas;
      } in
      (
        tx,
        (
          raw,
          signature,
          hash,
          p,
          decoded,
          by_key,
          send_raw-ok node raw hash taken,
          ap (λ (x : TxEip1559). x.to) is ∙ ap some at,
          nonce_is,
          ap (λ (x : TransactionTracker). x.pending) tracked,
          refl,
          sym nonce_is,
        ),
        is,
      )
