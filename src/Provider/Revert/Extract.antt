-- ===== src/Provider/Revert/Extract.antt =====
-- What `extract_revert_data` finds (crates/provider/src/alloy/entry_point.rs).
use bunzo.Prelude.{
  ℕ, ◌*◌, ◌/◌, ◌%◌, ◌<◌, ◌≤◌, ◌≡◌, refl, true, false, List, [], ◌∷◌, ◌++◌, none, some, length, All,
  arith, le→leb,
}
use bunzo.Provider.Revert.{
  HexDecoder, to_hex, hex_digit, is_ascii_hexdigit, find_0x, hex_prefix, decode_digits,
  extract_revert_data,
}

-- No digit at the head of a text.
abbrev pub EndsDigits : List ℕ → Type 0
EndsDigits [] = Unit {0}
EndsDigits (c ∷ text) = is_ascii_hexdigit c ≡ false

is_ascii_hexdigit-hex_digit : (n : ℕ) → n < 16 → is_ascii_hexdigit (hex_digit n) ≡ true
unfolding is_ascii_hexdigit
is_ascii_hexdigit-hex_digit n small = ground arith

hex_prefix-to_hex :
    (bytes suffix : List ℕ)
    → All (λ b. b < 256) bytes
    → EndsDigits suffix
    → hex_prefix (to_hex bytes ++ suffix) ≡ to_hex bytes
unfolding hex_prefix
hex_prefix-to_hex [] [] small ends = refl
hex_prefix-to_hex [] (c ∷ suffix) small ends = rw ends refl
hex_prefix-to_hex (b ∷ bytes) suffix small ends =
    rw (is_ascii_hexdigit-hex_digit (b / 16) (omega (arith, small.0))) rw
      (is_ascii_hexdigit-hex_digit (b % 16) (omega arith)) rw
      (hex_prefix-to_hex bytes suffix small.1 ends) refl

length-to_hex : (bytes : List ℕ) → length (to_hex bytes) ≡ 2 * length bytes
length-to_hex [] = refl
length-to_hex (b ∷ bytes) = omega (arith, length-to_hex bytes)

-- The first `0x` of a text that begins with a part without one.
find_0x-append :
    (before text : List ℕ)
    → find_0x before ≡ none
    → find_0x (before ++ (b'0' ∷ b'x' ∷ text)) ≡ some text
unfolding find_0x
find_0x-append [] text absent = refl
find_0x-append (c ∷ []) text absent = ground arith
find_0x-append (c ∷ d ∷ before) text absent =
    let tail : find_0x (d ∷ before) ≡ none = ground arith in
    ground (arith, find_0x-append (d ∷ before) text tail, absent)

-- Revert data of at least four bytes that a text reports in hexadecimal after its first `0x` is
-- found, where no digit follows it: the other parts of the text are left out.
pub extract_revert_data-append :
    (hex : HexDecoder)
    → (before bytes after : List ℕ) → find_0x before ≡ none
    → All (λ b. b < 256) bytes
    → 4 ≤ length bytes
    → EndsDigits after
    → extract_revert_data hex (before ++ (b'0' ∷ b'x' ∷ (to_hex bytes ++ after))) ≡ some bytes
unfolding extract_revert_data decode_digits
extract_revert_data-append hex before bytes after absent small long ends =
    let digits : decode_digits hex (to_hex bytes) ≡ some bytes =
      rw (decode_digits, le→leb 8 (length (to_hex bytes)) (omega (arith, length-to_hex bytes)))
        (hex.decode-to_hex bytes small) in
    rw
      (
        extract_revert_data,
        find_0x-append before (to_hex bytes ++ after) absent,
        hex_prefix-to_hex bytes after small ends,
      )
      digits

-- An error without `0x` has no revert data.
pub extract_revert_data-absent :
    (hex : HexDecoder) (text : List ℕ) → find_0x text ≡ none → extract_revert_data hex text ≡ none
unfolding extract_revert_data
extract_revert_data-absent hex text absent = rw (extract_revert_data, absent) refl
