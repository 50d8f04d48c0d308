-- ===== src/Parser/OneFs/Times.antt =====
-- pkg/parser/onefs.go: the range of `onefsTimestamp`.
use cee_exporter.Common.{
  ℕ, zero, suc, ◌≡◌, refl, ◌⊎◌, inl, inr, ◌<◌, ◌*◌, Bool, true, false, none, some, if◌then◌else◌,
  Bytes, ℤ, pos, negsuc, arith, Bool-cases,
}
use cee_exporter.Parser.Text.{trim_space, parse_int}
use cee_exporter.Parser.Event.{Time}
use cee_exporter.Parser.OneFs.{onefs_timestamp, positive_int, micros}

-- A time after 1970, in whole microseconds, normalised.
abbrev pub IsMicroTime : Time → Type 0
IsMicroTime t =
    (n : ℕ) × (m : ℕ) × (0 < n) × (m < 1000000) × (t ≡ record { sec = pos n; nsec = m * 1000 })

micros-lt : (z : ℤ) → micros z < 1000000
micros-lt (pos n) = ground arith
micros-lt (negsuc n) = omega arith

bounded_micros : (b : Bool) (z : ℤ) → (if b then 0 else micros z) < 1000000
bounded_micros true z = omega arith
bounded_micros false z = micros-lt z

-- The case of a parsed number of seconds.
from_seconds :
    (z : ℤ) (m : ℕ) (fallback : Time)
    → m < 1000000
    → ((elim (positive_int z) [
      | none ↦ fallback
      | some n ↦ record { sec = pos n; nsec = m * 1000 }
    ])
        ≡ fallback)
      ⊎ IsMicroTime (elim (positive_int z) [
        | none ↦ fallback
        | some n ↦ record { sec = pos n; nsec = m * 1000 }
      ])
from_seconds (pos zero) m fallback h = inl refl
from_seconds (pos (suc n)) m fallback h = inr (suc n, m, omega arith, h, refl)
from_seconds (negsuc n) m fallback h = inl refl

-- Whatever the two attributes hold, the timestamp is the time of receipt, or a time after 1970 with
-- less than a second of whole microseconds.
pub onefs_timestamp-IsMicroTime :
    (sec usec : Bytes) (fallback : Time)
    → (onefs_timestamp sec usec fallback ≡ fallback)
      ⊎ IsMicroTime (onefs_timestamp sec usec fallback)
unfolding onefs_timestamp
onefs_timestamp-IsMicroTime sec usec fallback =
    let us = parse_int (trim_space usec) in
    elim (Bool-cases (parse_int (trim_space sec)).failed) [
      | inl e ↦ inl (rw e)
      | inr e ↦ rw e (
          from_seconds (parse_int (trim_space sec)).int _ fallback
            (bounded_micros us.failed us.int))
    ]
