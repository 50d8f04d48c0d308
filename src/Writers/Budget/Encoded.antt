-- ===== src/Writers/Budget/Encoded.antt =====
-- The encoded length of a value of pkg/evtx/writer_evtx_notwindows.go against its bytes.
use cee_exporter.Common.{
  ℕ, zero, suc, ◌+◌, ◌-◌, ◌*◌, ◌≤◌, ◌≡◌, refl, true, Bool-cases, inl, inr, arith, [], ◌∷◌, Bytes,
  length, length-append, leb, ◌&&◌,
}
use cee_exporter.Parser.Utf16.{
  decode_rune, runes_from, rune_error, within, continues, second_of_three, second_of_four, byte_at,
  units_of_rune, units_of_runes, Decoded,
}
use cee_exporter.Writers.Budget.{encoded_len}

units_of_rune-length : (r : ℕ) → length (units_of_rune r) ≤ 2
unfolding units_of_rune
units_of_rune-length r = ground arith

units_of_rune-ascii : (a : ℕ) → leb a 0x7F ≡ true → length (units_of_rune a) ≡ 1
unfolding units_of_rune
units_of_rune-ascii a h = ground arith

units_of_rune-error : length (units_of_rune rune_error) ≡ 1
unfolding units_of_rune
units_of_rune-error = refl

-- The units of a decoded rune are paid for by its bytes.
record Paid (n : ℕ) (d : Decoded) : Type 0 where
  paid : length (units_of_rune d.rune) + (n - d.more) ≤ 1 + n

many-Paid : (n r m : ℕ) → 1 ≤ m → 1 ≤ n → Paid n (record { rune = r; more = m })
many-Paid n r m h l = record { paid = omega (arith, units_of_rune-length r, h, l) }

error-Paid : (n : ℕ) → Paid n (record { rune = rune_error; more = 0 })
error-Paid n = record { paid = omega (arith, units_of_rune-error) }

ascii-Paid : (n a : ℕ) → leb a 0x7F ≡ true → Paid n (record { rune = a; more = 0 })
ascii-Paid n a e = record { paid = omega (arith, units_of_rune-ascii a e) }

decode_rune-Paid : (a : ℕ) (bs : Bytes) → Paid (length bs) (decode_rune a bs)
unfolding decode_rune
decode_rune-Paid a bs =
    let n = length bs in
    let b = byte_at bs 0 in
    let c = byte_at bs 1 in
    let d = byte_at bs 2 in
    elim (Bool-cases (leb a 0x7F)) [
      | inl e ↦ rw e (ascii-Paid n a e)
      | inr e ↦ elim (Bool-cases (within 0xC2 0xDF a && continues b)) [
        | inl f ↦ rw (e, f) (many-Paid n _ 1 (omega arith) (some_byte bs (ground (arith, f))))
        | inr f ↦ elim (Bool-cases (within 0xE0 0xEF a && second_of_three a b && continues c)) [
          | inl g ↦
              rw (e, f, g) (many-Paid n _ 2 (omega arith) (second_byte bs (ground (arith, g))))
          | inr g ↦
              elim (Bool-cases
                (within 0xF0 0xF4 a && second_of_four a b && continues c && continues d)) [
                  | inl h ↦
                      rw (e, f, g, h)
                        (many-Paid n _ 3 (omega arith) (second_byte bs (ground (arith, h))))
                  | inr h ↦ rw (e, f, g, h) (error-Paid n)
                ]
        ]
      ]
    ]
  where
    some_byte : (bs : Bytes) → continues (byte_at bs 0) ≡ true → 1 ≤ length bs
    some_byte [] h = ground arith
    some_byte (b ∷ bs) h = omega arith

    second_byte : (bs : Bytes) → continues (byte_at bs 1) ≡ true → 1 ≤ length bs
    second_byte [] h = ground arith
    second_byte (b ∷ bs) h = omega arith

runes_from-units : (k : ℕ) (bs : Bytes) → length (units_of_runes (runes_from k bs)) ≤ length bs - k
unfolding runes_from units_of_runes
runes_from-units k [] = omega arith
runes_from-units (suc k) (b ∷ bs) = omega (arith, runes_from-units k bs)
runes_from-units zero (b ∷ bs) =
    let d = decode_rune b bs in
    omega (
      arith,
      length-append (units_of_rune d.rune) (units_of_runes (runes_from d.more bs)),
      (decode_rune-Paid b bs).paid,
      runes_from-units d.more bs,
    )

-- A value takes at most two bytes for each of its own, and four more.
pub encoded_len-bound : (s : Bytes) → encoded_len s ≤ 4 + 2 * length s
unfolding encoded_len
encoded_len-bound s = omega (arith, runes_from-units 0 s)
