-- ===== src/Parser/Utf16/Runes.antt =====
-- Go's unicode/utf8 and unicode/utf16 as pkg/parser/utf16.go uses them.
use cee_exporter.Common.{
  ℕ, zero, suc, true, false, ◌+◌, ◌-◌, ◌*◌, ◌/◌, ◌%◌, Bool, ◌&&◌, ◌||◌, List, [], ◌∷◌, ◌++◌, ltb,
  leb, ◌==◌, if◌then◌else◌, Bytes,
}

abbrev pub rune_error : ℕ
rune_error = 0xFFFD

-- lo <= x <= hi
abbrev pub within : ℕ → ℕ → ℕ → Bool
within lo hi x = leb lo x && leb x hi

-- A Unicode scalar value.
abbrev pub is_scalar : ℕ → Bool
is_scalar r = ltb r 0xD800 || within 0xE000 0x10FFFF r

abbrev three_bytes : ℕ → Bytes
three_bytes r = (0xE0 + r / 4096) ∷ (0x80 + (r / 64) % 64) ∷ (0x80 + r % 64) ∷ []

-- The bytes of utf8.AppendRune.
unfoldable pub utf8_of_rune : ℕ → Bytes
utf8_of_rune r =
    if leb r 0x7F
    then r ∷ []
    else if leb r 0x7FF
    then (0xC0 + r / 64) ∷ (0x80 + r % 64) ∷ []
    else if leb r 0xFFFF
    then (if within 0xD800 0xDFFF r then three_bytes rune_error else three_bytes r)
    else if leb r 0x10FFFF
    then (0xF0 + r / 262144)
      ∷ (0x80 + (r / 4096) % 64)
      ∷ (0x80 + (r / 64) % 64)
      ∷ (0x80 + r % 64)
      ∷ []
    else three_bytes rune_error

unfoldable pub utf8_of : List ℕ → Bytes
unfolding utf8_of_rune
utf8_of [] = []
utf8_of (r ∷ rs) = utf8_of_rune r ++ utf8_of rs

-- A decoded rune and how many bytes after its first belong to it.
pub record Decoded : Type 0 where
  pub rune : ℕ
  pub more : ℕ

abbrev invalid : Decoded
invalid = record { rune = rune_error; more = 0 }

abbrev pub continues : ℕ → Bool
continues = within 0x80 0xBF

-- The second byte that may follow the first byte of a three-byte, or of a four-byte, sequence.
abbrev pub second_of_three : ℕ → ℕ → Bool
second_of_three a b =
    if a == 0xE0 then within 0xA0 0xBF b else if a == 0xED then within 0x80 0x9F b else continues b

abbrev pub second_of_four : ℕ → ℕ → Bool
second_of_four a b =
    if a == 0xF0 then within 0x90 0xBF b else if a == 0xF4 then within 0x80 0x8F b else continues b

-- The byte at a position, or past the end 0, which continues nothing.
abbrev pub byte_at : Bytes → ℕ → ℕ
byte_at [] i = 0
byte_at (b ∷ bs) zero = b
byte_at (b ∷ bs) (suc i) = byte_at bs i

-- utf8.DecodeRune on the first byte and those behind it.
unfoldable pub decode_rune : ℕ → Bytes → Decoded
decode_rune a bs =
    let b = byte_at bs 0 in
    let c = byte_at bs 1 in
    let d = byte_at bs 2 in
    if leb a 0x7F
    then record { rune = a; more = 0 }
    else if within 0xC2 0xDF a && continues b
    then record { rune = (a - 0xC0) * 64 + (b - 0x80); more = 1 }
    else if within 0xE0 0xEF a && second_of_three a b && continues c
    then record { rune = (a - 0xE0) * 4096 + (b - 0x80) * 64 + (c - 0x80); more = 2 }
    else if within 0xF0 0xF4 a && second_of_four a b && continues c && continues d
    then record {
      rune = (a - 0xF0) * 262144 + (b - 0x80) * 4096 + (c - 0x80) * 64 + (d - 0x80);
      more = 3;
    }
    else invalid

-- []rune(string(b)), with the first argument bytes of the last rune still to pass.
unfoldable pub runes_from : ℕ → Bytes → List ℕ
runes_from k [] = []
runes_from (suc k) (b ∷ bs) = runes_from k bs
runes_from zero (b ∷ bs) = let d = decode_rune b bs in d.rune ∷ runes_from d.more bs

abbrev pub runes_of : Bytes → List ℕ
runes_of = runes_from 0

-- utf16.Encode
unfoldable pub units_of_rune : ℕ → List ℕ
units_of_rune r =
    if ltb r 0xD800 || within 0xE000 0xFFFF r
    then r ∷ []
    else if within 0x10000 0x10FFFF r
    then (0xD800 + (r - 0x10000) / 1024) ∷ (0xDC00 + (r - 0x10000) % 1024) ∷ []
    else rune_error ∷ []

unfoldable pub units_of_runes : List ℕ → List ℕ
unfolding units_of_rune
units_of_runes [] = []
units_of_runes (r ∷ rs) = units_of_rune r ++ units_of_runes rs

abbrev pub is_high : ℕ → Bool
is_high u = within 0xD800 0xDBFF u

abbrev pub is_low : ℕ → Bool
is_low u = within 0xDC00 0xDFFF u

-- The rune that a code unit stands for on its own.
abbrev lone : ℕ → ℕ
lone u = if is_high u || is_low u then rune_error else u

-- utf16.Decode
unfoldable pub runes_of_units : List ℕ → List ℕ
runes_of_units [] = []
runes_of_units (u ∷ []) = lone u ∷ []
runes_of_units (u ∷ v ∷ rest) = elim (is_high u && is_low v) [
  | true ↦ ((u - 0xD800) * 1024 + (v - 0xDC00) + 0x10000) ∷ runes_of_units rest
  | false ↦ lone u ∷ runes_of_units (v ∷ rest)
]
