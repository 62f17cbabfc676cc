-- ===== src/Provider/Evm.antt =====
-- The client's calls as the other parts see them (crates/provider/src/alloy/evm.rs): an error of the
-- client becomes `transport`. The client is the record `Client`.
use bunzo.Prelude.{ℕ, Option, none, some, List}
use bunzo.Prelude.Result.{Result, ok, err, map_err, ◌>>=◌}
use bunzo.Provider.Traits.{ProviderError, transport, invalid_response, other}

pub data BlockNumberOrTag : Type 0 where
  latest : BlockNumberOrTag
  number : ℕ → BlockNumberOrTag

-- The header of a block, as far as the program reads it.
pub record Header : Type 0 where
  pub hash : ℕ
  pub base_fee_per_gas : Option ℕ

-- `map_err(|e| ProviderError::Transport(e.to_string()))`.
unfoldable pub to_transport : {E A : Type 0} → Result E A → Result ProviderError A
to_transport r = map_err (λ _. transport) r

-- `ok_or_else(|| ProviderError::InvalidResponse(..))`.
unfoldable pub ok_or_invalid : {A : Type 0} → Option A → Result ProviderError A
ok_or_invalid none = err invalid_response
ok_or_invalid (some a) = ok a

module _ (E Tx Filter Log Receipt : Type 0) where
  pub record Client : Type 0 where
    pub call : Tx → BlockNumberOrTag → Result E (List ℕ)
    pub get_logs : Filter → Result E (List Log)
    pub get_block_by_number : BlockNumberOrTag → Result E (Option Header)
    pub get_block_number : Result E ℕ
    pub get_transaction_count : ℕ → Result E ℕ
    pub get_balance : ℕ → Result E ℕ
    pub send_raw_transaction : List ℕ → Result E ℕ
    pub get_transaction_receipt : ℕ → Result E (Option Receipt)
    pub get_chain_id : Result E ℕ
    pub get_max_priority_fee_per_gas : Result E ℕ

  module _ (c : Client) where
    unfoldable pub call : Tx → (block : Option ℕ) → Result ProviderError (List ℕ)
    unfolding to_transport
    call tx none = to_transport (c.call tx latest)
    call tx (some n) = to_transport (c.call tx (number n))

    unfoldable pub get_logs : Filter → Result ProviderError (List Log)
    unfolding to_transport
    get_logs filter = to_transport (c.get_logs filter)

    unfoldable pub get_block : ℕ → Result ProviderError (Option Header)
    unfolding to_transport
    get_block block_number = to_transport (c.get_block_by_number (number block_number))

    unfoldable pub get_block_number : Result ProviderError ℕ
    unfolding to_transport
    get_block_number = to_transport c.get_block_number

    unfoldable pub get_nonce : ℕ → Result ProviderError ℕ
    unfolding to_transport
    get_nonce address = to_transport (c.get_transaction_count address)

    unfoldable pub get_balance : ℕ → Result ProviderError ℕ
    unfolding to_transport
    get_balance address = to_transport (c.get_balance address)

    unfoldable pub send_raw_transaction : List ℕ → Result ProviderError ℕ
    unfolding to_transport
    send_raw_transaction raw_tx = to_transport (c.send_raw_transaction raw_tx)

    unfoldable pub get_transaction_receipt : ℕ → Result ProviderError (Option Receipt)
    unfolding to_transport
    get_transaction_receipt tx_hash = to_transport (c.get_transaction_receipt tx_hash)

    unfoldable pub get_chain_id : Result ProviderError ℕ
    unfolding to_transport
    get_chain_id = to_transport c.get_chain_id

    unfoldable pub get_base_fee : Result ProviderError ℕ
    unfolding to_transport ok_or_invalid
    get_base_fee = to_transport (c.get_block_by_number latest) >>= λ found.
        ok_or_invalid found >>= λ block. ok_or_invalid block.base_fee_per_gas

    unfoldable pub get_max_priority_fee : Result ProviderError ℕ
    unfolding to_transport
    get_max_priority_fee = to_transport c.get_max_priority_fee_per_gas

  -- The interface of the other parts.
  pub record EvmProvider : Type 0 where
    pub call : Tx → (block : Option ℕ) → Result ProviderError (List ℕ)
    pub get_logs : Filter → Result ProviderError (List Log)
    pub get_block : ℕ → Result ProviderError (Option Header)
    pub get_block_number : Result ProviderError ℕ
    pub get_nonce : ℕ → Result ProviderError ℕ
    pub get_balance : ℕ → Result ProviderError ℕ
    pub send_raw_transaction : List ℕ → Result ProviderError ℕ
    pub get_transaction_receipt : ℕ → Result ProviderError (Option Receipt)
    pub get_chain_id : Result ProviderError ℕ
    pub get_base_fee : Result ProviderError ℕ
    pub get_max_priority_fee : Result ProviderError ℕ

  -- `impl EvmProvider for AlloyEvmProvider`.
  unfoldable pub alloy_provider : Client → EvmProvider
  unfolding call get_logs get_block get_block_number get_nonce get_balance send_raw_transaction
      get_transaction_receipt get_chain_id get_base_fee get_max_priority_fee
  alloy_provider c = record {
    call = call c;
    get_logs = get_logs c;
    get_block = get_block c;
    get_block_number = get_block_number c;
    get_nonce = get_nonce c;
    get_balance = get_balance c;
    send_raw_transaction = send_raw_transaction c;
    get_transaction_receipt = get_transaction_receipt c;
    get_chain_id = get_chain_id c;
    get_base_fee = get_base_fee c;
    get_max_priority_fee = get_max_priority_fee c;
  }

  -- `impl EvmProvider for ()`: no provider is configured.
  abbrev pub unit_provider : EvmProvider
  unit_provider = record {
    call = λ _ _. err other;
    get_logs = λ _. err other;
    get_block = λ _. err other;
    get_block_number = err other;
    get_nonce = λ _. err other;
    get_balance = λ _. err other;
    send_raw_transaction = λ _. err other;
    get_transaction_receipt = λ _. err other;
    get_chain_id = err other;
    get_base_fee = err other;
    get_max_priority_fee = err other;
  }
