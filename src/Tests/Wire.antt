-- ===== src/Tests/Wire.antt =====
-- The theorem on what is signed for the node.
use bunzo.Prelude.{
  ℕ, ◌+◌, ◌≡◌, refl, inl, inr, Option-cases, List, [], ◌∷◌, Option, none, some, if◌then◌else◌, ◌==◌,
}
use bunzo.Prelude.Result.{ok}
use bunzo.Builder.Task.{build_bundle_tx}
use bunzo.Signer.Local.{TransactionRequest, TxEip1559, Envelope, LocalSigner, sign_transaction}
use bunzo.Signer.Local.Wire.{sign_transaction-build_bundle_tx}
use bunzo.Tests.Bundler.{world, started, bundle}

-- An envelope that lists the fields of a transaction.
abbrev pub encode_2718 : TxEip1559 → ℕ → List ℕ
encode_2718 tx signature =
    signature
    ∷ tx.chain_id
    ∷ tx.nonce
    ∷ tx.gas_limit
    ∷ tx.max_fee_per_gas
    ∷ tx.max_priority_fee_per_gas
    ∷ tx.value
    ∷ (elim tx.to [ none ↦ 0 ∷ 0 ∷ tx.input | some a ↦ 1 ∷ a ∷ tx.input ])

abbrev decode_to : ℕ → ℕ → Option ℕ
decode_to kind a = if kind == 0 then none else some a

abbrev pub decode_2718 : List ℕ → Option (TxEip1559 × ℕ)
decode_2718 (signature ∷ chain_id ∷ nonce ∷ gas ∷ max_fee ∷ tip ∷ value ∷ kind ∷ a ∷ input) = some (
  record {
    chain_id = chain_id;
    nonce = nonce;
    gas_limit = gas;
    max_fee_per_gas = max_fee;
    max_priority_fee_per_gas = tip;
    to = decode_to kind a;
    value = value;
    input = input;
  },
  signature,
)
decode_2718 _ = none

pub decode-encode_2718 :
    (tx : TxEip1559) (signature : ℕ) → decode_2718 (encode_2718 tx signature) ≡ some (tx, signature)
decode-encode_2718 tx signature = elim (Option-cases tx.to) [
  | inl e ↦ rw e refl
  | inr (a, e) ↦ rw e refl
]

abbrev pub wire : Envelope
wire = record {
  signature_hash = λ tx. tx.nonce;
  encode_2718 = encode_2718;
  decode = decode_2718;
  decode-encode_2718 = decode-encode_2718;
}

abbrev pub key : LocalSigner
key = record { address = 1; sign_hash = λ hash. ok (hash + 1) }

abbrev node_tx : TxEip1559
node_tx = record {
  chain_id = 31337;
  nonce = 4;
  gas_limit = 1000;
  max_fee_per_gas = 500;
  max_priority_fee_per_gas = 10;
  to = some 0;
  value = 0;
  input = [];
}

sign_transaction-build_bundle_tx_example :
    (tx : TxEip1559) × (signature : ℕ) × (decode_2718 (encode_2718 node_tx 5)
      ≡ some (tx, signature))
    × (key.sign_hash tx.nonce ≡ ok signature)
    × (tx ≡ node_tx)
unfolding build_bundle_tx bunzo.Signer.Local.eip1559_tx sign_transaction
sign_transaction-build_bundle_tx_example =
    sign_transaction-build_bundle_tx wire key world started bundle 4 (encode_2718 node_tx 5) refl
