-- ===== src/Prelude/Words.antt =====
-- The unsigned machine integers of the program. Its arithmetic is that of a release build, which
-- wraps around where a debug build panics.
use Prim.Native.Nat.{ℕ, ◌+◌, ◌-◌, ◌*◌, ◌%◌, ◌^◌, min}
use mathlib.Core.Option.{Option, none, some}
use bunzo.Prelude.Tests.{ltb, if◌then◌else◌}

abbrev pub u32_mod : ℕ
u32_mod = 2 ^ 32

abbrev pub u64_mod : ℕ
u64_mod = 2 ^ 64

abbrev pub u128_mod : ℕ
u128_mod = 2 ^ 128

-- `as u64`.
abbrev pub to_u64 : ℕ → ℕ
to_u64 a = a % u64_mod

abbrev pub add_u64 : ℕ → ℕ → ℕ
add_u64 a b = (a + b) % u64_mod

abbrev pub mul_u64 : ℕ → ℕ → ℕ
mul_u64 a b = (a * b) % u64_mod

abbrev pub add_u32 : ℕ → ℕ → ℕ
add_u32 a b = (a + b) % u32_mod

abbrev pub add_u128 : ℕ → ℕ → ℕ
add_u128 a b = (a + b) % u128_mod

abbrev pub mul_u128 : ℕ → ℕ → ℕ
mul_u128 a b = (a * b) % u128_mod

-- `saturating_add(1)` on a u64; `saturating_sub` is `-` on ℕ.
abbrev pub saturating_suc_u64 : ℕ → ℕ
saturating_suc_u64 a = min (a + 1) (u64_mod - 1)

-- `x.to::<T>()` on a U256 panics when the value does not fit the type: `none`.
abbrev pub to_uint : ℕ → ℕ → Option ℕ
to_uint bound x = if ltb x bound then some x else none

abbrev pub to_usize : ℕ → Option ℕ
to_usize = to_uint u64_mod
