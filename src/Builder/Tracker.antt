-- ===== src/Builder/Tracker.antt =====
-- The tracker of the bundler's pending transaction (crates/builder/src/tracker.rs). Instants and
-- durations are numbers; what the node answers is an argument of the call that asks.
pub mod Fees
pub mod Nonces
use bunzo.Prelude.{
  ℕ, ◌+◌, ◌-◌, ◌/◌, ◌&&◌, max, Bool, true, false, Option, none, some, ltb, leb, if◌then◌else◌,
  unwrap_or, is_some,
}
use bunzo.Prelude.Words.{add_u128, mul_u128, add_u64, add_u32}
use bunzo.Provider.Traits.{ProviderError}
use bunzo.Prelude.Result.{Result, ok, err}

pub record PendingTransaction : Type 0 where
  pub tx_hash : ℕ
  pub nonce : ℕ
  pub escalation_count : ℕ
  pub submitted_at : ℕ
  pub max_fee_per_gas : ℕ
  pub max_priority_fee_per_gas : ℕ

pub data TransactionStatus : Type 0 where
  pending_status : TransactionStatus
  mined : (block_number : ℕ) → TransactionStatus
  dropped : TransactionStatus

pub data EscalationStrategy : Type 0 where
  linear network_tracking : EscalationStrategy

pub record EscalationConfig : Type 0 where
  pub initial_wait : ℕ
  pub fee_bump_bps : ℕ
  pub max_attempts : ℕ
  pub strategy : EscalationStrategy
  pub network_premium_bps : ℕ

abbrev pub default_escalation : EscalationConfig
default_escalation = record {
  initial_wait = 30;
  fee_bump_bps = 1250;
  max_attempts = 5;
  strategy = network_tracking;
  network_premium_bps = 1500;
}

pub record TransactionTracker : Type 0 where
  pub signer_address : ℕ
  pub pending : Option PendingTransaction
  pub current_nonce : ℕ
  pub escalation_config : EscalationConfig

-- A mined transaction's receipt; its block number may be missing.
pub record Receipt : Type 0 where
  pub block_number : Option ℕ

unfoldable pub new : ℕ → EscalationConfig → TransactionTracker
new signer_address escalation_config = record {
  signer_address = signer_address;
  pending = none;
  current_nonce = 0;
  escalation_config = escalation_config;
}

-- `get_nonce` is the node's answer.
unfoldable pub initialize :
    Result ProviderError ℕ
    → TransactionTracker
    → TransactionTracker × Result ProviderError (Unit {0})
initialize (err e) t = (t, err e)
initialize (ok nonce) t = (record t { current_nonce = nonce }, ok tt)

unfoldable pub next_nonce : TransactionTracker → ℕ
next_nonce t = t.current_nonce

unfoldable pub record_submission : ℕ → TransactionTracker → ℕ → ℕ → ℕ → ℕ → TransactionTracker
record_submission now t tx_hash nonce max_fee_per_gas max_priority_fee_per_gas = record t {
  pending = some (record {
    tx_hash = tx_hash;
    nonce = nonce;
    escalation_count = 0;
    submitted_at = now;
    max_fee_per_gas = max_fee_per_gas;
    max_priority_fee_per_gas = max_priority_fee_per_gas;
  });
}

-- The receipt of the pending transaction and the nonce of the signer, as the node answers.
unfoldable pub check_pending :
    (ℕ → Result ProviderError (Option Receipt))
    → Result ProviderError ℕ
    → TransactionTracker
    → TransactionTracker × Result ProviderError (Option TransactionStatus)
check_pending get_receipt get_nonce t = elim t.pending [
  | none ↦ (t, ok none)
  | some p ↦ elim (get_receipt p.tx_hash) [
    | err e ↦ (t, err e)
    | ok (some receipt) ↦ (
      record t { current_nonce = add_u64 p.nonce 1; pending = none },
      ok (some (mined (unwrap_or receipt.block_number 0))),
    )
    | ok none ↦ elim get_nonce [
      | err e ↦ (t, err e)
      | ok chain_nonce ↦
          if ltb p.nonce chain_nonce
          then (record t { current_nonce = chain_nonce; pending = none }, ok (some dropped))
          else (t, ok (some pending_status))
    ]
  ]
]

unfoldable pub needs_escalation : ℕ → TransactionTracker → Bool
needs_escalation now t = elim t.pending [
  | none ↦ false
  | some p ↦
      leb t.escalation_config.initial_wait (now - p.submitted_at)
      && ltb p.escalation_count t.escalation_config.max_attempts
]

-- `fee * (10000 + bps) / 10000`.
unfoldable pub bumped : ℕ → ℕ → ℕ
bumped fee bps = mul_u128 fee (add_u128 10000 bps) / 10000

unfoldable pub escalated_fees_network :
    Result ProviderError ℕ
    → Result ProviderError ℕ
    → EscalationConfig
    → PendingTransaction
    → Option (ℕ × ℕ)
escalated_fees_network (err e) get_priority_fee c p = none
escalated_fees_network (ok base_fee) (err e) c p = none
escalated_fees_network (ok base_fee) (ok priority_fee) c p = some (
  max (bumped (add_u128 base_fee priority_fee) c.network_premium_bps)
      (bumped p.max_fee_per_gas c.fee_bump_bps),
  max (bumped priority_fee c.network_premium_bps)
      (bumped p.max_priority_fee_per_gas c.fee_bump_bps),
)

unfoldable pub escalated_fees :
    Result ProviderError ℕ → Result ProviderError ℕ → TransactionTracker → Option (ℕ × ℕ)
escalated_fees get_base_fee get_priority_fee t = elim t.pending [
  | none ↦ none
  | some p ↦
      if leb t.escalation_config.max_attempts p.escalation_count
      then none
      else elim t.escalation_config.strategy [
        | linear ↦ some (
          bumped p.max_fee_per_gas t.escalation_config.fee_bump_bps,
          bumped p.max_priority_fee_per_gas t.escalation_config.fee_bump_bps,
        )
        | network_tracking ↦
            escalated_fees_network get_base_fee get_priority_fee t.escalation_config p
      ]
]

unfoldable pub record_escalation : TransactionTracker → ℕ → ℕ → ℕ → TransactionTracker
record_escalation t new_tx_hash new_max_fee new_priority_fee = elim t.pending [
  | none ↦ t
  | some p ↦ record t {
    pending = some (record p {
      tx_hash = new_tx_hash;
      max_fee_per_gas = new_max_fee;
      max_priority_fee_per_gas = new_priority_fee;
      escalation_count = add_u32 p.escalation_count 1;
    });
  }
]

unfoldable pub clear_pending : TransactionTracker → TransactionTracker
clear_pending t = record t { pending = none }

unfoldable pub has_pending : TransactionTracker → Bool
has_pending t = is_some t.pending

-- `get_balance` is the node's call.
unfoldable pub balance :
    (get_balance : ℕ → Result ProviderError ℕ) → TransactionTracker → Result ProviderError ℕ
balance get_balance t = get_balance t.signer_address
