-- ===== src/Builder/Tracker/Nonces.antt =====
-- How the nonce of the signer moves (crates/builder/src/tracker.rs, `check_pending`).
use bunzo.Prelude.{ℕ, ◌+◌, ◌<◌, ◌≡◌, ◌⊎◌, Option, none, some, arith}
use bunzo.Prelude.Words.{u64_mod}
use bunzo.Prelude.Result.{Result, ok}
use bunzo.Provider.Traits.{ProviderError}
use bunzo.Builder.Tracker.{
  Receipt, TransactionTracker, PendingTransaction, TransactionStatus, mined, dropped, check_pending,
}

-- The answer says that the transaction is settled.
abbrev pub IsSettled : Result ProviderError (Option TransactionStatus) → Type 0
IsSettled (ok (some (mined b))) = Unit
IsSettled (ok (some dropped)) = Unit
IsSettled _ = ⊥

-- Nonces are not used twice: when `check_pending` reports the pending transaction as mined or
-- dropped, nothing is pending any more and the next nonce is above the transaction's, if that one
-- is below the highest u64; on any other answer, an error included, the tracker is unchanged.
pub check_pending_nonce :
    (get_receipt : ℕ → Result ProviderError (Option Receipt)) (get_nonce : Result ProviderError ℕ)
    (t : TransactionTracker) (p : PendingTransaction)
    → t.pending ≡ some p
    → p.nonce + 1 < u64_mod
    → let (t', answer) = check_pending get_receipt get_nonce t in
      (IsSettled answer × (t'.pending ≡ none) × (p.nonce < t'.current_nonce))
      ⊎ ((¬ IsSettled answer) × (t' ≡ t))
unfolding check_pending
check_pending_nonce get_receipt get_nonce t p e small = ground arith
