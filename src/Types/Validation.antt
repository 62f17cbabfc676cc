-- ===== src/Types/Validation.antt =====
-- crates/types/src/validation.rs: what the entry point says of an operation that it validated.
use Prim.Native.String.{String}
use bunzo.Prelude.{ℕ, Bool, ◌&&◌, leb, List, Option}

pub record StakeInfo : Type 0 where
  pub stake : ℕ
  pub unstake_delay_sec : ℕ

unfoldable pub is_staked : StakeInfo → (min_stake min_unstake_delay : ℕ) → Bool
is_staked info min_stake min_unstake_delay =
    leb min_stake info.stake && leb min_unstake_delay info.unstake_delay_sec

pub record ValidationOutput : Type 0 where
  pub pre_op_gas : ℕ
  pub prefund : ℕ
  pub valid_after : ℕ
  pub valid_until : ℕ
  pub account_sig_failed : Bool
  pub paymaster_sig_failed : Bool
  pub sender_info : StakeInfo
  pub factory_info : StakeInfo
  pub paymaster_info : StakeInfo
  pub aggregator : Option ℕ

pub data ValidationRevert : Type 0 where
  failed_op : (op_index : ℕ) (reason : String) → ValidationRevert
  failed_op_with_revert : (op_index : ℕ) (reason : String) (inner : List ℕ) → ValidationRevert
  signature_validation_failed : (aggregator : ℕ) → ValidationRevert
  unknown : List ℕ → ValidationRevert
