-- ===== src/Parser/CheckEvent/Times.antt =====
-- pkg/parser/checkevent.go: the range of `ceeTimestamp`.
use cee_exporter.Common.{
  ℕ, ◌≡◌, refl, ◌⊎◌, inl, inr, ◌<◌, ◌/◌, ◌^◌, ◌==◌, ltb, Bytes, pos, arith, Bool-cases,
  Option-cases,
}
use cee_exporter.Parser.Text.{trim_space, Parsed, value, syntax, range}
use cee_exporter.Parser.Text.NumberLaws.{Fits, parse_uint-Fits}
use cee_exporter.Parser.Event.{Time}
use cee_exporter.Parser.CheckEvent.{cee_timestamp, instant_of, hex_digits, parse_cee_num, is_empty}

parse_cee_num-Fits : (raw : Bytes) (base : ℕ) → Fits (parse_cee_num raw base)
unfolding parse_cee_num
parse_cee_num-Fits raw base = elim (Bool-cases (is_empty (trim_space raw))) [
  | inl e ↦ rw e tt
  | inr e ↦ rw e (elim (Option-cases (hex_digits (trim_space raw))) [
    | inl n ↦ rw n (parse_uint-Fits base (trim_space raw))
    | inr (r, n) ↦ rw n (parse_uint-Fits 16 r)
  ])
]

-- A time that `ceeTimestamp` reads itself: after 1970, in 32 bits of seconds, without a fraction.
abbrev pub IsWholeSecond : Time → Type 0
IsWholeSecond t = (n : ℕ) × (0 < n) × (n < 2 ^ 32) × (t ≡ record { sec = pos n; nsec = 0 })

instant_of-Whole :
    (n : Parsed) (fallback : Time)
    → Fits n
    → (instant_of n fallback ≡ fallback) ⊎ IsWholeSecond (instant_of n fallback)
unfolding instant_of
instant_of-Whole syntax fallback h = inl refl
instant_of-Whole range fallback h = inl refl
instant_of-Whole (value n) fallback h = elim (Bool-cases (n == 0)) [
  | inl z ↦ inl (rw z)
  | inr z ↦ elim (Bool-cases (ltb 0xFFFFFFFF n)) [
    | inl big ↦ inr (n / 2 ^ 32, ground (arith, big), omega (arith, h), rw (z, big))
    | inr small ↦ inr (n, ground (arith, z), ground (arith, small), rw (z, small))
  ]
]

-- Whatever the attribute holds, the timestamp is the time of receipt or a whole second after 1970
-- that fits 32 bits.
pub cee_timestamp-Whole :
    (raw : Bytes) (fallback : Time)
    → (cee_timestamp raw fallback ≡ fallback) ⊎ IsWholeSecond (cee_timestamp raw fallback)
unfolding cee_timestamp
cee_timestamp-Whole raw fallback = elim (Bool-cases (is_empty (trim_space raw))) [
  | inl e ↦ inl (rw e)
  | inr e ↦ rw e (
      instant_of-Whole (parse_cee_num (trim_space raw) 10) fallback
        (parse_cee_num-Fits (trim_space raw) 10))
]
