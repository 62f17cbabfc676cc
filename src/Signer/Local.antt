-- ===== src/Signer/Local.antt =====
-- crates/signer/src/local.rs: `LocalSigner`, which signs with a private key. The key, the hash that
-- is signed and the encoding of a signed transaction are those of the client's library.
pub mod Wire
use Prim.Native.String.{String}
use bunzo.Prelude.{ℕ, ◌≡◌, List, [], Option, none, some, unwrap_or}
use bunzo.Prelude.Result.{Result, ok, err}

-- A request of the client's library, as far as the signer reads it. The outer option of `to` is an
-- absent field; the inner one is `none` for the creation of a contract.
pub record TransactionRequest : Type 0 where
  pub to : Option (Option ℕ)
  pub nonce : Option ℕ
  pub gas : Option ℕ
  pub max_fee_per_gas : Option ℕ
  pub max_priority_fee_per_gas : Option ℕ
  pub value : Option ℕ
  pub input : Option (List ℕ)

pub record TxEip1559 : Type 0 where
  pub chain_id : ℕ
  pub nonce : ℕ
  pub gas_limit : ℕ
  pub max_fee_per_gas : ℕ
  pub max_priority_fee_per_gas : ℕ
  pub to : Option ℕ
  pub value : ℕ
  pub input : List ℕ

-- The encoding of EIP-2718 and EIP-1559, which the node reads back.
pub record Envelope : Type 0 where
  pub signature_hash : TxEip1559 → ℕ
  pub encode_2718 : TxEip1559 → (signature : ℕ) → List ℕ
  pub decode : List ℕ → Option (TxEip1559 × ℕ)
  pub decode-encode_2718 :
      (tx : TxEip1559) (signature : ℕ) → decode (encode_2718 tx signature) ≡ some (tx, signature)

pub record LocalSigner : Type 0 where
  pub address : ℕ
  pub sign_hash : ℕ → Result String ℕ

-- What a request leaves out has a default.
unfoldable pub eip1559_tx : TransactionRequest → ℕ → TxEip1559
eip1559_tx tx chain_id = record {
  chain_id = chain_id;
  nonce = unwrap_or tx.nonce 0;
  gas_limit = unwrap_or tx.gas 0;
  max_fee_per_gas = unwrap_or tx.max_fee_per_gas 0;
  max_priority_fee_per_gas = unwrap_or tx.max_priority_fee_per_gas 0;
  to = unwrap_or tx.to none;
  value = unwrap_or tx.value 0;
  input = unwrap_or tx.input [];
}

unfoldable pub sign_transaction :
    Envelope → LocalSigner → TransactionRequest → ℕ → Result String (List ℕ)
unfolding eip1559_tx
sign_transaction wire signer tx chain_id =
    let typed = eip1559_tx tx chain_id in
    elim (signer.sign_hash (wire.signature_hash typed)) [
      | err e ↦ err e
      | ok signature ↦ ok (wire.encode_2718 typed signature)
    ]
