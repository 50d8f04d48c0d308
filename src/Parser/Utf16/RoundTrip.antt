-- ===== src/Parser/Utf16/RoundTrip.antt =====
-- What a publisher that reads UTF-16 gets back from `EncodeUTF16LE`.
use cee_exporter.Common.{
  ℕ, ◌+◌, ◌*◌, ◌/◌, ◌%◌, ◌<◌, ◌≡◌, refl, sym, ap, ◌∙◌, true, some, List, [], ◌∷◌, ◌++◌, arith,
  every, All, Bytes,
}
use cee_exporter.Parser.Utf16.{
  is_scalar, utf8_of, units_of_rune, units_of_runes, units_of, decode_utf16_pairs, decode_body,
  bytes_of_units, encode_utf16le,
}
use cee_exporter.Parser.Utf16.Scalars.{runes_of-utf8_of, runes_of_units-units}

-- Every code unit has 16 bits.
units_of_rune-lt : (r : ℕ) → All (λ u. u < 65536) (units_of_rune r)
unfolding units_of_rune
units_of_rune-lt r = ground arith

All-append : (P : ℕ → Type 0) (xs ys : List ℕ) → All P xs → All P ys → All P (xs ++ ys)
All-append P [] ys h k = k
All-append P (x ∷ xs) ys h k = (h.0, All-append P xs ys h.1 k)

units_of_runes-lt : (rs : List ℕ) → All (λ u. u < 65536) (units_of_runes rs)
unfolding units_of_runes
units_of_runes-lt [] = tt
units_of_runes-lt (r ∷ rs) = All-append _ _ _ (units_of_rune-lt r) (units_of_runes-lt rs)

units_of-bytes :
    (us : List ℕ) → All (λ u. u < 65536) us → units_of true (bytes_of_units us) ≡ some us
unfolding units_of bytes_of_units
units_of-bytes [] h = refl
units_of-bytes (u ∷ us) h =
    let e : u % 256 + 256 * (u / 256 % 256) ≡ u = omega arith in rw (units_of-bytes us h.1, e) refl

decode_utf16_pairs-encode :
    (rs : List ℕ)
    → every is_scalar rs ≡ true
    → decode_utf16_pairs (encode_utf16le (utf8_of rs)) true ≡ some (utf8_of rs)
unfolding decode_utf16_pairs encode_utf16le
decode_utf16_pairs-encode rs h =
    rw
      (
        runes_of-utf8_of rs h,
        units_of-bytes (units_of_runes rs) (units_of_runes-lt rs),
        decode_utf16_pairs,
        runes_of_units-units rs h,
      )
      refl

-- A first character below U+0100 leaves a zero byte in second place.
encode_utf16le-first :
    (r : ℕ) (rs : List ℕ)
    → r < 256
    → every is_scalar (r ∷ rs) ≡ true
    → encode_utf16le (utf8_of (r ∷ rs)) ≡ r ∷ 0 ∷ bytes_of_units (units_of_runes rs)
unfolding encode_utf16le
encode_utf16le-first r rs hi h =
    rw (runes_of-utf8_of (r ∷ rs) h) (unfold units_of_runes bytes_of_units in ground arith)

decode_body-le :
    (r : ℕ) (rest : Bytes)
    → 0 < r
    → decode_body (r ∷ 0 ∷ rest) ≡ decode_utf16_pairs (r ∷ 0 ∷ rest) true
unfolding decode_body
decode_body-le r rest lo = ground arith

-- A text in UTF-8 that begins with a character between U+0001 and U+00FF is what `DecodeBody` makes
-- of its `EncodeUTF16LE`, which has no byte-order mark.
pub decode_body-encode :
    (r : ℕ) (rs : List ℕ)
    → 0 < r
    → r < 256
    → every is_scalar rs ≡ true
    → decode_body (encode_utf16le (utf8_of (r ∷ rs))) ≡ some (utf8_of (r ∷ rs))
decode_body-encode r rs lo hi h =
    let scalars : every is_scalar (r ∷ rs) ≡ true = ground arith in
    let first = encode_utf16le-first r rs hi scalars in
    ap decode_body first
    ∙ decode_body-le r _ lo
    ∙ ap (λ b. decode_utf16_pairs b true) (sym first)
    ∙ decode_utf16_pairs-encode (r ∷ rs) scalars
