-- ===== src/Tests/Data.antt =====
-- The data of the tests: two operations, pools that hold them, and instances of the parameters (the
-- hash of bytes is the number that they spell, a float is a fraction).
use bunzo.Prelude.{
  refl, ℕ, suc, ◌*◌, ◌≤◌, ◌<◌, List, [], ◌∷◌, none, some, arith, ltb, ltb→lt, lt→ltb,
}
use native.Mathlib.Nat.{mul-pos, mul-le-mul_right}
use bunzo.Prelude.Maps.{get, insert, remove}
use bunzo.Types.UserOperation.Packing.{UserOperation, Hasher}
use bunzo.Types.UserOperation.Bytes.{of_be}
use bunzo.Types.UserOperation.{id, hash}
use bunzo.Pool.Entry.{PoolConfig, PoolEntry, new_entry, id_discrete}
use bunzo.Pool.Store.{OperationPool, new, add, admit, store, size, min_bump}
use bunzo.Pool.Contents.{count, hash_index, id_index}
use bunzo.Pool.Represents.{Represents, new-Represents}
use bunzo.Pool.Refines.{spec_add, add_refines}
use bunzo.Pool.Reputation.{Float}

abbrev pub hasher : Hasher
hasher = record {
  abi_encode = λ op. op.sender ∷ op.nonce ∷ op.call_data;
  keccak256 = λ bytes. of_be bytes;
}

-- A fraction, its numerator first; n / 0 compares as an infinity.
abbrev pub fractions : Float
fractions = record {
  F = ℕ × ℕ;
  of_u64 = λ n. (n, 1);
  div = λ a b. (a.0 * b.1, a.1 * b.0);
  lt = λ a b. ltb (a.0 * b.1) (b.0 * a.1);
  tenth = (1, 10);
  hundredth = (1, 100);
  hundredth_positive = refl;
  zero_div = λ n t h.
      let positive = ltb→lt (0 * t.1) (t.0 * 1) h in
      lt→ltb (0 * 1 * t.1) (t.0 * (1 * suc n)) (
        let p : 0 < t.0 * (1 * suc n) = mul-pos (omega (arith, positive)) (omega arith) in
        omega (arith, p));
  div_mono = λ a b n t h below.
      let upper = ltb→lt (b * 1 * t.1) (t.0 * (1 * n)) below in
      let p : a * 1 * t.1 ≤ b * 1 * t.1 = mul-le-mul_right t.1 (omega (arith, h)) in
      lt→ltb (a * 1 * t.1) (t.0 * (1 * n)) (omega (arith, upper, p));
}

abbrev pub op_a : UserOperation
op_a = record {
  sender = 7;
  nonce = 3;
  call_data = 1 ∷ 0 ∷ [];
  call_gas_limit = 100;
  verification_gas_limit = 200;
  pre_verification_gas = 50;
  max_fee_per_gas = 1000;
  max_priority_fee_per_gas = 20;
  signature = 9 ∷ [];
  factory = none;
  factory_data = [];
  paymaster = some 5;
  paymaster_verification_gas_limit = 30;
  paymaster_post_op_gas_limit = 40;
  paymaster_data = 4 ∷ [];
  entry_point = 0;
  chain_id = 31337;
  hash = some 11;
}

abbrev pub op_b : UserOperation
op_b = record op_a { sender = 8; max_priority_fee_per_gas = 90; hash = some 12 }

-- The successor of `op_a` in its nonces, and its replacement with higher fees.
abbrev pub op_next : UserOperation
op_next = record op_a { nonce = 4; hash = some 13 }

abbrev pub op_bumped : UserOperation
op_bumped = record op_a { max_fee_per_gas = 1200; hash = some 14 }

abbrev pub config : PoolConfig
config = record { max_size = 3; max_ops_per_sender = 2; replacement_fee_bump_bps = 1000 }

abbrev pub empty : OperationPool
empty = new config

abbrev pub pool_a : OperationPool
pool_a = (add hasher empty op_a 5).0

abbrev pub pool_ab : OperationPool
pool_ab = (add hasher pool_a op_b 5).0

abbrev pub entry_a : PoolEntry
entry_a = new_entry hasher op_a 5 0

abbrev pub entry_b : PoolEntry
entry_b = new_entry hasher op_b 5 1

abbrev pub entries_ab : List PoolEntry
entries_ab = entry_b ∷ entry_a ∷ []

pub empty-Represents : Represents empty []
empty-Represents = new-Represents config (omega arith)

pub pool_a-Represents : Represents pool_a (entry_a ∷ [])
unfolding spec_add new id hash get hash_index id_index count min_bump new_entry
pool_a-Represents = (add_refines hasher empty [] empty-Represents op_a 5).1

pub pool_ab-Represents : Represents pool_ab entries_ab
unfolding spec_add new id hash get hash_index id_index count new_entry add admit store size insert
    remove id_discrete
pool_ab-Represents = (add_refines hasher pool_a (entry_a ∷ []) pool_a-Represents op_b 5).1
