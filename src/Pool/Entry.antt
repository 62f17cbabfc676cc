-- ===== src/Pool/Entry.antt =====
-- Pool entries and their order (crates/pool/src/pool.rs, `PoolConfig`, `PoolEntry`, `OrderEntry`).
use bunzo.Prelude.{ℕ, compare, Ordering, ◌≡◌, ap, ◌⊎◌, arith, ℕ_discrete}
use bunzo.Types.Chain.{ChainSpec}
use bunzo.Types.UserOperation.Packing.{UserOperation, UserOperationId, Hasher}
use bunzo.Types.UserOperation as Op

pub record PoolConfig : Type 0 where
  pub max_size : ℕ
  pub max_ops_per_sender : ℕ
  pub replacement_fee_bump_bps : ℕ

abbrev pub default_config : PoolConfig
default_config = record { max_size = 4096; max_ops_per_sender = 4; replacement_fee_bump_bps = 1000 }

unfoldable pub of_chain_spec : ChainSpec → PoolConfig
of_chain_spec c = record {
  max_size = c.max_pool_size;
  max_ops_per_sender = c.max_ops_per_sender;
  replacement_fee_bump_bps = c.replacement_fee_bump_bps;
}

pub record PoolEntry : Type 0 where
  pub uo : UserOperation
  pub hash : ℕ
  pub id : UserOperationId
  pub submit_gas_price : ℕ
  pub sequence : ℕ

unfoldable pub new_entry : Hasher → UserOperation → ℕ → ℕ → PoolEntry
new_entry env uo base_fee sequence = record {
  uo = uo;
  hash = Op.hash env uo;
  id = Op.id uo;
  submit_gas_price = Op.effective_gas_price uo base_fee;
  sequence = sequence;
}

-- Keys of the index by sender and nonce.
unfoldable pub id_discrete : Discrete UserOperationId
unfolding ℕ_discrete
id_discrete a b = elim (ℕ_discrete a.sender b.sender) [
  | yes p ↦ elim (ℕ_discrete a.nonce b.nonce) [
    | yes q ↦ yes (λ i. record { sender = p i; nonce = q i })
    | no q ↦ no (λ e. q (ap (λ r. r.nonce) e))
  ]
  | no p ↦ no (λ e. p (ap (λ r. r.sender) e))
]

abbrev pub then_with : Ordering → Ordering → Ordering
then_with Ordering.eq second = second
then_with first _ = first

-- Highest gas price first, then lowest sequence, then hash.
unfoldable pub cmp : PoolEntry → PoolEntry → Ordering
cmp a b =
    then_with (compare b.submit_gas_price a.submit_gas_price)
      (then_with (compare a.sequence b.sequence) (compare a.hash b.hash))

-- `a` comes before `b` in the order of the pool.
abbrev pub Before : PoolEntry → PoolEntry → Type 0
Before a b = cmp a b ≡ Ordering.lt

pub cmp_self : (a : PoolEntry) → cmp a a ≡ Ordering.eq
unfolding cmp
cmp_self a = ground arith

pub eq_of_cmp : (a b : PoolEntry) → cmp a b ≡ Ordering.eq → a.hash ≡ b.hash
unfolding cmp
eq_of_cmp a b h = ground arith

pub lt_of_gt : (a b : PoolEntry) → cmp a b ≡ Ordering.gt → cmp b a ≡ Ordering.lt
unfolding cmp
lt_of_gt a b h = ground arith

pub gt_of_lt : (a b : PoolEntry) → cmp a b ≡ Ordering.lt → cmp b a ≡ Ordering.gt
unfolding cmp
gt_of_lt a b h = ground arith

pub Before-trans : (a b c : PoolEntry) → Before a b → Before b c → Before a c
unfolding cmp
Before-trans a b c h k = ground arith

pub eq_join :
    (a b c : PoolEntry) → cmp a c ≡ Ordering.eq → cmp b c ≡ Ordering.eq → cmp a b ≡ Ordering.eq
unfolding cmp
eq_join a b c h k = ground arith

pub cmp-cases :
    (a b : PoolEntry)
    → (cmp a b ≡ Ordering.lt) ⊎ ((cmp a b ≡ Ordering.eq) ⊎ (cmp a b ≡ Ordering.gt))
cmp-cases a b = ground arith
