-- ===== src/Parser/Text/NumberLaws.antt =====
-- Numbers that are parsed fit 64 bits, and a printed number parses to itself.
use cee_exporter.Common.{
  ℕ, ◌<◌, ◌+◌, ◌*◌, ◌^◌, true, false, Option, none, some, [], ◌∷◌, ltb, Bytes, arith, Bool-cases,
  inl, inr,
}
use cee_exporter.Parser.Text.{Parsed, value, syntax, range, parse_digits, parse_uint, digit_in}

abbrev pub Fits : Parsed → Type 0
Fits (value n) = n < 2 ^ 64
Fits syntax = Unit
Fits range = Unit

parse_digits-Fits : (base acc : ℕ) (s : Bytes) → acc < 2 ^ 64 → Fits (parse_digits base acc s)
unfolding parse_digits
parse_digits-Fits base acc [] h = h
parse_digits-Fits base acc (c ∷ s) h =
    next (λ d e. parse_digits-Fits base (acc * base + d) s e) (digit_in base c)
  where
    next :
        ((d : ℕ) → acc * base + d < 2 ^ 64 → Fits (parse_digits base (acc * base + d) s))
        → (o : Option ℕ)
        → Fits (elim o [
          | none ↦ syntax
          | some d ↦ elim (ltb (acc * base + d) (2 ^ 64)) [
            | true ↦ parse_digits base (acc * base + d) s
            | false ↦ range
          ]
        ])
    next f none = tt
    next f (some d) = elim (Bool-cases (ltb (acc * base + d) (2 ^ 64))) [
      | inl e ↦ rw e (f d (ground (arith, e)))
      | inr e ↦ rw e tt
    ]

-- ParseUint gives a 64-bit number.
pub parse_uint-Fits : (base : ℕ) (s : Bytes) → Fits (parse_uint base s)
unfolding parse_uint
parse_uint-Fits base [] = tt
parse_uint-Fits base (c ∷ s) = parse_digits-Fits base 0 (c ∷ s) (omega arith)
