-- ===== src/Parser/Utf16/Detect.antt =====
-- The detection of UTF-16 in pkg/parser/utf16.go: `IsUTF16` and `DecodeBody` agree.
use cee_exporter.Common.{
  ℕ, ◌+◌, ◌*◌, ◌%◌, ◌<◌, ◌≡◌, refl, Bool, true, false, Option, none, some, List, [], ◌∷◌, arith,
  if◌then◌else◌, Bytes, length,
}
use cee_exporter.Parser.Utf16.{units_of, decode_utf16_pairs, decode_body, is_utf16}

-- What `IsUTF16` does not recognise, `DecodeBody` returns as it is.
pub decode_body-of_not_utf16 : (b : Bytes) → is_utf16 b ≡ false → decode_body b ≡ some b
unfolding decode_body is_utf16
decode_body-of_not_utf16 [] h = refl
decode_body-of_not_utf16 (a ∷ []) h = refl
decode_body-of_not_utf16 (a ∷ b ∷ rest) h = ground arith

-- Pairing fails on an odd length and on no other.
abbrev Pairs : Option (List ℕ) → Bytes → Type 0
Pairs none b = length b % 2 ≡ 1
Pairs (some us) b = length b % 2 ≡ 0

units_of-Pairs : (little : Bool) (b : Bytes) → Pairs (units_of little b) b
unfolding units_of
units_of-Pairs little [] = omega arith
units_of-Pairs little (a ∷ []) = omega arith
units_of-Pairs little (a ∷ b ∷ rest) = next (units_of little rest) (units_of-Pairs little rest)
  where
    next :
        (o : Option (List ℕ))
        → Pairs o rest
        → Pairs
            (elim o [
              | none ↦ none
              | some us ↦ some ((if little then a + 256 * b else 256 * a + b) ∷ us)
            ])
            (a ∷ b ∷ rest)
    next none h = omega (arith, h)
    next (some us) h = omega (arith, h)

-- `none` exactly if the length is odd.
abbrev pub FailsOdd : Option Bytes → ℕ → Type 0
FailsOdd none n = n % 2 ≡ 1
FailsOdd (some d) n = n % 2 ≡ 0

decode_utf16_pairs-FailsOdd :
    (b : Bytes) (little : Bool) → FailsOdd (decode_utf16_pairs b little) (length b)
unfolding decode_utf16_pairs
decode_utf16_pairs-FailsOdd b little = ground (arith, units_of-Pairs little b)

-- A payload that is recognised as UTF-16, by a byte-order mark or without one, is refused if its
-- length is odd and decoded if it is even: a trailing half of a code unit is never dropped.
pub decode_body-FailsOdd : (b : Bytes) → is_utf16 b ≡ true → FailsOdd (decode_body b) (length b)
unfolding decode_body is_utf16
decode_body-FailsOdd [] h = cc
decode_body-FailsOdd (x ∷ []) h = cc
decode_body-FailsOdd (x ∷ y ∷ rest) h = ground (
  arith,
  decode_utf16_pairs-FailsOdd rest true,
  decode_utf16_pairs-FailsOdd rest false,
  decode_utf16_pairs-FailsOdd (x ∷ y ∷ rest) true,
  decode_utf16_pairs-FailsOdd (x ∷ y ∷ rest) false,
)

-- A text whose first byte is below 0xFE and not zero, and whose second is not zero, is left
-- alone by `DecodeBody`, and `IsUTF16` does not recognise it.
pub decode_body_text :
    (x y : ℕ) (rest : Bytes)
    → 0 < x
    → x < 0xFE
    → 0 < y
    → (decode_body (x ∷ y ∷ rest) ≡ some (x ∷ y ∷ rest)) × (is_utf16 (x ∷ y ∷ rest) ≡ false)
unfolding decode_body is_utf16
decode_body_text x y rest hx hx' hy = ground arith
