-- ===== src/Signer/Local/Wire.antt =====
-- What the node reads in the transaction that the bundler signs for a bundle
-- (crates/signer/src/local.rs with crates/builder/src/task.rs, `build_bundle_tx`).
use bunzo.Prelude.{ℕ, ◌≡◌, refl, inl, inr, List, some, arith}
use bunzo.Prelude.Result.{ok, Result-cases}
use bunzo.Builder.Proposer.{Bundle}
use bunzo.Builder.Task.State.{BundlerTask, World}
use bunzo.Builder.Task.State
use bunzo.Builder.Task.{build_bundle_tx}
use bunzo.Signer.Local.{
  TransactionRequest, TxEip1559, Envelope, LocalSigner, eip1559_tx, sign_transaction,
}

-- A request of the task sets every field.
abbrev pub request_of : State.TransactionRequest → TransactionRequest
request_of tx = record {
  to = some (some tx.to);
  nonce = some tx.nonce;
  gas = some tx.gas_limit;
  max_fee_per_gas = some tx.max_fee_per_gas;
  max_priority_fee_per_gas = some tx.max_priority_fee_per_gas;
  value = some tx.value;
  input = some tx.input;
}

sign_transaction_decoded :
    (wire : Envelope) (signer : LocalSigner) (tx : TransactionRequest) (chain_id : ℕ) (raw : List ℕ)
    → sign_transaction wire signer tx chain_id ≡ ok raw
    → (signature : ℕ) × (signer.sign_hash (wire.signature_hash (eip1559_tx tx chain_id))
        ≡ ok signature)
      × (wire.decode raw ≡ some (eip1559_tx tx chain_id, signature))
unfolding sign_transaction
sign_transaction_decoded wire signer tx chain_id raw e =
    let typed = eip1559_tx tx chain_id in
    elim (Result-cases (signer.sign_hash (wire.signature_hash typed))) [
      | inr (x, bad) ↦ absurd (ground arith)
      | inl (signature, signed) ↦
          (signature, signed, ground (arith, signed, wire.decode-encode_2718 typed signature))
    ]

-- What the local signer returns for the transaction of a bundle is read back as a call of the entry
-- point of the task's chain, that sends no value, with the given nonce, the fees and the gas limit
-- of the bundle, and the encoded operations of the bundle as its input; and it is signed by the key
-- over the hash of this transaction.
pub sign_transaction-build_bundle_tx :
    (wire : Envelope) (signer : LocalSigner) (world : World) (t : BundlerTask) (bundle : Bundle)
    (nonce : ℕ) (raw : List ℕ)
    → sign_transaction wire signer
        (request_of (build_bundle_tx world t bundle nonce))
        t.chain_spec.id
      ≡ ok raw
    → (tx : TxEip1559) × (signature : ℕ) × (wire.decode raw ≡ some (tx, signature))
      × (signer.sign_hash (wire.signature_hash tx) ≡ ok signature)
      × (tx ≡ record {
        chain_id = t.chain_spec.id;
        nonce = nonce;
        gas_limit = bundle.gas_estimate;
        max_fee_per_gas = bundle.gas_fees.max_fee_per_gas;
        max_priority_fee_per_gas = bundle.gas_fees.max_priority_fee_per_gas;
        to = some t.chain_spec.entry_point_v0_7;
        value = 0;
        input = world.encode_handle_ops bundle.ops bundle.beneficiary;
      })
unfolding build_bundle_tx eip1559_tx
sign_transaction-build_bundle_tx wire signer world t bundle nonce raw e =
    let request = request_of (build_bundle_tx world t bundle nonce) in
    let (signature, signed, read) =
      sign_transaction_decoded wire signer request t.chain_spec.id raw e in
    (eip1559_tx request t.chain_spec.id, signature, read, signed, refl)
