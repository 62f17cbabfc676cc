-- ===== src/Signer/RoundRobin.antt =====
-- The leases go round the wallets (crates/signer/src/manager.rs, `acquire`).
use bunzo.Prelude.{
  ℕ, zero, suc, ◌+◌, ◌%◌, ◌≡◌, refl, ◌<◌, List, [], ◌∷◌, some, arith, length, get_elem?,
}
use bunzo.Prelude.Words.{u64_mod}
use bunzo.Signer.Manager.{Signer, SignerManager, acquire, acquire_many, lease_at, get}

acquire_many_lem :
    (n : ℕ) (m : SignerManager)
    → m.next_index + n < u64_mod
    → ((acquire_many n m).next_index ≡ m.next_index + n) × ((acquire_many n m).signers ≡ m.signers)
unfolding acquire_many acquire
acquire_many_lem zero m small = ground arith
acquire_many_lem (suc n) m small = ground (arith, acquire_many_lem n (acquire m).0)

none_below : (i : ℕ) → i < 0 → ⊥
none_below i h = omega (arith, h)

get_elem?_lt :
    (signers : List Signer) (i : ℕ)
    → i < length signers
    → (s : Signer) × (get_elem? signers i ≡ some s)
get_elem?_lt [] i h = elim (none_below i h) [ ]
get_elem?_lt (s ∷ signers) zero h = (s, refl)
get_elem?_lt (s ∷ signers) (suc i) h = get_elem?_lt signers i (omega (arith, h))

lease_at-found :
    (signers : List Signer) (i : ℕ) (s : Signer)
    → get_elem? signers i ≡ some s
    → lease_at signers i ≡ some (record { signer = s; index = i })
unfolding lease_at
lease_at-found signers i s h = ground arith

-- A manager with a wallet always grants a lease, and the leases go round: the lease taken after `n`
-- others is the wallet at position `next_index + n` modulo the number of wallets, as long as the
-- counter has not wrapped around at 2^64.
pub acquire_many_round :
    (n : ℕ) (m : SignerManager)
    → 0 < length m.signers
    → m.next_index + n < u64_mod
    → let i = (m.next_index + n) % length m.signers in
      (s : Signer) × (get m i ≡ some s)
      × ((acquire (acquire_many n m)).1 ≡ some (record { signer = s; index = i }))
unfolding acquire get
acquire_many_round n m some_signer small =
    let i = (m.next_index + n) % length m.signers in
    let (s, found) = get_elem?_lt m.signers i (omega (arith, some_signer)) in
    let (next, same) = acquire_many_lem n m small in
    (s, found, cc (next, same, found, lease_at-found m.signers i s found))
