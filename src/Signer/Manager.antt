-- ===== src/Signer/Manager.antt =====
-- crates/signer/src/manager.rs: the wallets that share the signing, handed out in turn. A wallet is
-- a key that the code behind `BundlerSigner` holds; only its address is read here.
use bunzo.Prelude.{
  ℕ, zero, suc, ◌%◌, ◌==◌, List, [], ◌∷◌, map, Option, none, some, if◌then◌else◌, length, get_elem?,
}
use bunzo.Prelude.Words.{add_u64}

pub record Signer : Type 0 where
  pub address : ℕ

pub record SignerManager : Type 0 where
  pub signers : List Signer
  pub next_index : ℕ

pub record SignerLease : Type 0 where
  pub signer : Signer
  pub index : ℕ

unfoldable pub new : List Signer → SignerManager
new signers = record { signers = signers; next_index = 0 }

unfoldable pub single : Signer → SignerManager
unfolding new
single signer = new (signer ∷ [])

unfoldable pub count : SignerManager → ℕ
count m = length m.signers

unfoldable pub addresses : SignerManager → List ℕ
addresses m = map (λ s. s.address) m.signers

-- `signers[idx]` panics out of range, as the remainder by the length of an empty list does: `none`.
-- The counter is a usize of 64 bits and wraps around.
unfoldable pub lease_at : List Signer → ℕ → Option SignerLease
lease_at signers idx = elim (get_elem? signers idx) [
  | none ↦ none
  | some signer ↦ some (record { signer = signer; index = idx })
]

unfoldable pub acquire : SignerManager → SignerManager × Option SignerLease
unfolding lease_at
acquire m = (
  record m { next_index = add_u64 m.next_index 1 },
  lease_at m.signers (m.next_index % length m.signers),
)

unfoldable pub get : SignerManager → ℕ → Option Signer
get m index = get_elem? m.signers index

find_address : ℕ → List Signer → Option Signer
find_address address [] = none
find_address address (s ∷ signers) =
    if s.address == address then some s else find_address address signers

unfoldable pub get_by_address : SignerManager → ℕ → Option Signer
unfolding find_address
get_by_address m address = find_address address m.signers

-- The manager after `n` leases.
unfoldable pub acquire_many : ℕ → SignerManager → SignerManager
unfolding acquire
acquire_many zero m = m
acquire_many (suc n) m = acquire_many n (acquire m).0
