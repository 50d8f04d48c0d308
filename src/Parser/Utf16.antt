-- ===== src/Parser/Utf16.antt =====
-- pkg/parser/utf16.go, with what it uses of Go's unicode/utf16 and unicode/utf8. An error is
-- `none`.
mod Runes
unfoldable pub use Runes.*
mod Scalars
pub mod RoundTrip
pub mod Detect
use cee_exporter.Common.{
  ℕ, zero, suc, ◌+◌, ◌-◌, ◌*◌, ◌/◌, ◌%◌, Bool, true, false, not, ◌&&◌, ◌||◌, Option, none, some,
  List, [], ◌∷◌, ◌++◌, ltb, leb, ◌==◌, if◌then◌else◌, Bytes, length,
}

-- The code units of pairs of bytes; `none` for an odd byte left over.
unfoldable pub units_of : Bool → Bytes → Option (List ℕ)
units_of little [] = some []
units_of little (a ∷ []) = none
units_of little (a ∷ b ∷ rest) = elim (units_of little rest) [
  | none ↦ none
  | some us ↦ some ((if little then a + 256 * b else 256 * a + b) ∷ us)
]

-- decodeUTF16Pairs
unfoldable pub decode_utf16_pairs : Bytes → Bool → Option Bytes
decode_utf16_pairs b little = elim (units_of little b) [
  | none ↦ none
  | some us ↦ some (utf8_of (runes_of_units us))
]

unfoldable pub decode_body : Bytes → Option Bytes
decode_body [] = some []
decode_body (a ∷ []) = some (a ∷ [])
decode_body (a ∷ b ∷ rest) =
    if a == 0xFF && b == 0xFE
    then decode_utf16_pairs rest true
    else if a == 0xFE && b == 0xFF
    then decode_utf16_pairs rest false
    else if not (a == 0) && b == 0
    then decode_utf16_pairs (a ∷ b ∷ rest) true
    else if a == 0 && not (b == 0)
    then decode_utf16_pairs (a ∷ b ∷ rest) false
    else some (a ∷ b ∷ rest)

unfoldable pub is_utf16 : Bytes → Bool
is_utf16 [] = false
is_utf16 (a ∷ []) = false
is_utf16 (a ∷ b ∷ rest) =
    a == 0xFF && b == 0xFE
    || a == 0xFE && b == 0xFF
    || not (a == 0) && b == 0
    || a == 0 && not (b == 0)

-- byte(u), byte(u>>8)
unfoldable pub bytes_of_units : List ℕ → Bytes
bytes_of_units [] = []
bytes_of_units (u ∷ us) = u % 256 ∷ (u / 256) % 256 ∷ bytes_of_units us

-- EncodeUTF16LE
unfoldable pub encode_utf16le : Bytes → Bytes
encode_utf16le b = bytes_of_units (units_of_runes (runes_of b))
