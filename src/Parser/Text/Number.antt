-- ===== src/Parser/Text/Number.antt =====
-- strconv.ParseUint, ParseInt and Atoi, and the printing of numbers.
use cee_exporter.Common.{
  ℕ, zero, suc, ◌+◌, ◌-◌, ◌*◌, ◌/◌, ◌%◌, ◌^◌, Bool, true, false, ◌&&◌, Option, none, some, [], ◌∷◌,
  ltb, leb, ◌==◌, if◌then◌else◌, Bytes, ℤ, pos, negsuc,
}

-- A result with the two ways to fail.
pub data Parsed : Type 0 where
  value : ℕ → Parsed
  syntax : Parsed
  range : Parsed

-- The value of a digit or a letter in either case.
unfoldable pub digit_of : ℕ → Option ℕ
digit_of c =
    if leb b'0' c && leb c b'9'
    then some (c - b'0')
    else if leb b'a' c && leb c b'z'
    then some (c - b'a' + 10)
    else if leb b'A' c && leb c b'Z'
    then some (c - b'A' + 10)
    else none

-- A digit of the base.
unfoldable pub digit_in : ℕ → ℕ → Option ℕ
digit_in base c = elim (digit_of c) [ none ↦ none | some d ↦ if ltb d base then some d else none ]

-- The loop of ParseUint with 64 bits: it stops at the first overflow, and at a bad digit before.
unfoldable pub parse_digits : ℕ → ℕ → Bytes → Parsed
parse_digits base acc [] = value acc
parse_digits base acc (c ∷ s) = elim (digit_in base c) [
  | none ↦ syntax
  | some d ↦ elim (ltb (acc * base + d) (2 ^ 64)) [
    | true ↦ parse_digits base (acc * base + d) s
    | false ↦ range
  ]
]

-- strconv.ParseUint(s, base, 64) at a base other than 0, where `_` is no digit.
unfoldable pub parse_uint : ℕ → Bytes → Parsed
parse_uint base [] = syntax
parse_uint base (c ∷ s) = parse_digits base 0 (c ∷ s)

-- The integer and whether there was an error, as strconv.ParseInt(s, 10, 64) gives them: on a
-- range error the nearest int64, on a syntax error 0.
pub record Int64 : Type 0 where
  pub int : ℤ
  pub failed : Bool

abbrev failed_at : ℤ → Int64
failed_at z = record { int = z; failed = true }

abbrev pub negate : ℕ → ℤ
negate zero = pos 0
negate (suc n) = negsuc n

abbrev positive : Parsed → Int64
positive (value n) =
    if ltb n (2 ^ 63) then record { int = pos n; failed = false } else failed_at (pos (2 ^ 63 - 1))
positive range = failed_at (pos (2 ^ 63 - 1))
positive syntax = failed_at (pos 0)

abbrev negative : Parsed → Int64
negative (value n) =
    if leb n (2 ^ 63)
    then record { int = negate n; failed = false }
    else failed_at (negate (2 ^ 63))
negative range = failed_at (negate (2 ^ 63))
negative syntax = failed_at (pos 0)

unfoldable pub parse_int : Bytes → Int64
parse_int [] = failed_at (pos 0)
parse_int (c ∷ s) =
    if c == b'+'
    then positive (parse_uint 10 s)
    else if c == b'-'
    then negative (parse_uint 10 s)
    else positive (parse_uint 10 (c ∷ s))

abbrev pub digit_char : ℕ → ℕ
digit_char d = if ltb d 10 then b'0' + d else b'a' + (d - 10)

-- The digits of a number in a base, most significant first, on fuel above the number of digits.
unfoldable pub digits_onto : ℕ → ℕ → ℕ → Bytes → Bytes
digits_onto base zero n acc = acc
digits_onto base (suc fuel) n acc =
    let acc' = digit_char (n % base) ∷ acc in
    let more = digits_onto base fuel (n / base) acc' in if ltb n base then acc' else more

-- strconv.FormatUint and fmt's %x of a 64-bit number: 64 digits are enough in any base.
unfoldable pub format_uint : ℕ → ℕ → Bytes
format_uint base n = digits_onto base 64 n []
