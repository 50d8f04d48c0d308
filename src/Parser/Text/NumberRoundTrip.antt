-- ===== src/Parser/Text/NumberRoundTrip.antt =====
-- A number that strconv prints parses to itself.
use cee_exporter.Common.{
  ℕ, zero, suc, ◌<◌, ◌≤◌, ◌+◌, ◌*◌, ◌/◌, ◌%◌, ◌^◌, ◌≡◌, ◌∙◌, ap, refl, some, [], ◌∷◌, ltb, Bytes,
  arith, Bool-cases, inl, inr, length,
}
use cee_exporter.Parser.Text.{
  value, parse_digits, parse_uint, digit_of, digit_in, digit_char, digits_onto, format_uint,
}

-- What the loops use of a base.
pub record IsBase (base : ℕ) : Type 0 where
  pub divides : (n : ℕ) → n / base * base + n % base ≡ n
  pub small : (n : ℕ) → n < base → n % base ≡ n
  pub remains : (n : ℕ) → n % base < base
  pub halves : (n : ℕ) → n / base ≤ n / 2
  pub lower : 2 ≤ base
  pub upper : base ≤ 36

pub ten_IsBase : IsBase 10
ten_IsBase = record {
  divides = λ n. omega arith;
  small = λ n h. omega (arith, h);
  remains = λ n. omega arith;
  halves = λ n. omega arith;
  lower = omega arith;
  upper = omega arith;
}

pub sixteen_IsBase : IsBase 16
sixteen_IsBase = record {
  divides = λ n. omega arith;
  small = λ n h. omega (arith, h);
  remains = λ n. omega arith;
  halves = λ n. omega arith;
  lower = omega arith;
  upper = omega arith;
}

digit_of-digit_char : (d : ℕ) → d < 36 → digit_of (digit_char d) ≡ some d
unfolding digit_of
digit_of-digit_char d h = ground arith

zero_of : (n : ℕ) → n < 2 ^ 0 → n ≡ 0
zero_of n h = omega arith

module _ (base : ℕ) (b : IsBase base) where
  digit_in-digit_char : (d : ℕ) → d < base → digit_in base (digit_char d) ≡ some d
  unfolding digit_in
  digit_in-digit_char d h =
      rw (digit_of-digit_char d (omega (arith, b.upper, h)), digit_in) (ground (arith, h))

  parse_digit :
      (acc d : ℕ) (s : Bytes)
      → d < base
      → acc * base + d < 2 ^ 64
      → parse_digits base acc (digit_char d ∷ s) ≡ parse_digits base (acc * base + d) s
  unfolding parse_digits
  parse_digit acc d s h l =
      rw (digit_in-digit_char d h, parse_digits)
        (elim (Bool-cases (ltb (acc * base + d) (2 ^ 64))) [
          | inl e ↦ rw e refl
          | inr e ↦ ground (arith, e, l)
        ])

  parse_first :
      (d : ℕ) (s : Bytes)
      → d < base
      → d < 2 ^ 64
      → parse_digits base 0 (digit_char d ∷ s) ≡ parse_digits base d s
  parse_first d s h l =
      parse_digit 0 d s h (omega (arith, l)) ∙ ap (λ m. parse_digits base m s) (omega arith)

  -- Printing a number before `s` and parsing is parsing `s` on from the number.
  parse_digits_onto :
      (fuel n : ℕ) (s : Bytes)
      → n < 2 ^ 64
      → n < 2 ^ fuel
      → parse_digits base 0 (digits_onto base fuel n s) ≡ parse_digits base n s
  unfolding digits_onto
  parse_digits_onto zero n s h l = rw (zero_of n l) refl
  parse_digits_onto (suc fuel) n s h l = elim (Bool-cases (ltb n base)) [
    | inl e ↦ rw (e, b.small n (ground (arith, e))) (parse_first n s (ground (arith, e)) h)
    | inr e ↦ rw e (
        parse_digits_onto fuel (n / base) (digit_char (n % base) ∷ s) (omega (arith, b.halves n, h))
          (omega (arith, b.halves n, l))
        ∙ parse_digit (n / base) (n % base) s (b.remains n) (omega (arith, b.divides n, h))
        ∙ ap (λ m. parse_digits base m s) (b.divides n))
  ]

digits_onto-length : (base fuel n : ℕ) (s : Bytes) → length s ≤ length (digits_onto base fuel n s)
unfolding digits_onto
digits_onto-length base zero n s = omega arith
digits_onto-length base (suc fuel) n s =
    ground (arith, digits_onto-length base fuel (n / base) (digit_char (n % base) ∷ s))

pub format_uint-length : (base n : ℕ) → 0 < length (format_uint base n)
unfolding format_uint digits_onto
format_uint-length base n =
    ground (arith, digits_onto-length base 63 (n / base) (digit_char (n % base) ∷ []))

parse_uint-digits :
    (base : ℕ) (s : Bytes) → 0 < length s → parse_uint base s ≡ parse_digits base 0 s
unfolding parse_uint
parse_uint-digits base [] h = ground arith
parse_uint-digits base (c ∷ s) h = refl

-- strconv.ParseUint reads back the 64-bit number that FormatUint, or fmt's %x, printed in the same
-- base, for the bases in use (10 and 16).
pub parse_uint-format :
    (base : ℕ) (n : ℕ) → IsBase base → n < 2 ^ 64 → parse_uint base (format_uint base n) ≡ value n
unfolding format_uint parse_digits
parse_uint-format base n b h =
    parse_uint-digits base (format_uint base n) (format_uint-length base n)
    ∙ parse_digits_onto base b 64 n [] h h
