-- ===== src/Provider/Revert.antt =====
-- The revert data of a failed call (`extract_revert_data` and `decode_validation_revert` of
-- crates/provider/src/alloy/entry_point.rs; the former stands again in bundle_handler.rs). The
-- client reports it inside the text of its error, as hexadecimal digits. A text is the list of its
-- bytes; the decoder of the crate const_hex is the record `HexDecoder`.
pub mod Extract
use bunzo.Prelude.{
  ℕ, ◌+◌, ◌-◌, ◌/◌, ◌%◌, ◌<◌, ◌≡◌, Bool, true, false, ◌&&◌, ◌||◌, List, [], ◌∷◌, Option, none, some,
  leb, ltb, ◌==◌, if◌then◌else◌, length, All,
}
use bunzo.Types.Validation.{
  ValidationRevert, failed_op, failed_op_with_revert, signature_validation_failed, unknown,
}
use bunzo.Provider.Contracts.{Abi}
use bunzo.Provider.Contracts
use bunzo.Prelude.Words.{to_usize}

-- The lower-case digit of a number below 16.
abbrev pub hex_digit : ℕ → ℕ
hex_digit n = if ltb n 10 then b'0' + n else b'a' + n - 10

-- Two digits for each byte.
abbrev pub to_hex : List ℕ → List ℕ
to_hex [] = []
to_hex (b ∷ bytes) = hex_digit (b / 16) ∷ hex_digit (b % 16) ∷ to_hex bytes

-- `const_hex::decode` reads back what is written with two digits for each byte.
pub record HexDecoder : Type 0 where
  pub decode : List ℕ → Option (List ℕ)
  pub decode-to_hex :
      (bytes : List ℕ) → All (λ b. b < 256) bytes → decode (to_hex bytes) ≡ some bytes

unfoldable pub is_ascii_hexdigit : ℕ → Bool
is_ascii_hexdigit c =
    (leb b'0' c && leb c b'9') || ((leb b'a' c && leb c b'f') || (leb b'A' c && leb c b'F'))

-- What follows the first `0x`.
unfoldable pub find_0x : List ℕ → Option (List ℕ)
find_0x [] = none
find_0x (c ∷ []) = none
find_0x (c ∷ d ∷ text) =
    let later = find_0x (d ∷ text) in if (c == b'0') && (d == b'x') then some text else later

-- The digits up to the first other character.
unfoldable pub hex_prefix : List ℕ → List ℕ
hex_prefix [] = []
hex_prefix (c ∷ text) = let rest = hex_prefix text in if is_ascii_hexdigit c then c ∷ rest else []

unfoldable pub decode_digits : HexDecoder → List ℕ → Option (List ℕ)
decode_digits hex digits = if leb 8 (length digits) then hex.decode digits else none

unfoldable pub extract_revert_data : HexDecoder → List ℕ → Option (List ℕ)
unfolding find_0x hex_prefix decode_digits
extract_revert_data hex err_str = elim (find_0x err_str) [
  | none ↦ none
  | some hex_str ↦ decode_digits hex (hex_prefix hex_str)
]

-- `opIndex.to::<usize>()` panics when the index does not fit: `none`.
unfoldable pub decode_validation_revert : Abi → List ℕ → Option ValidationRevert
decode_validation_revert abi bytes = elim (abi.decode_error bytes) [
  | none ↦ some (unknown bytes)
  | some (Contracts.failed_op index reason) ↦ elim (to_usize index) [
    | none ↦ none
    | some op_index ↦ some (failed_op op_index reason)
  ]
  | some (Contracts.failed_op_with_revert index reason inner) ↦ elim (to_usize index) [
    | none ↦ none
    | some op_index ↦ some (failed_op_with_revert op_index reason inner)
  ]
  | some (Contracts.signature_validation_failed aggregator) ↦
      some (signature_validation_failed aggregator)
]
