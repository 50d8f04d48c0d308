-- ===== src/Parser/Utf16/Scalars.antt =====
-- Scalar values in UTF-8 and in UTF-16, as Go reads them.
use native.Mathlib.Decide.{dec_le}
use cee_exporter.Common.{
  leb, ltb, ◌||◌, ℕ, ◌+◌, ◌-◌, ◌*◌, ◌/◌, ◌%◌, ◌≤◌, ◌<◌, ◌≡◌, ◌⊎◌, refl, ap, ◌∙◌, true, false, List,
  [], ◌∷◌, ◌++◌, arith, every, Bytes,
}
use cee_exporter.Parser.Utf16.{
  within, is_scalar, utf8_of_rune, utf8_of, decode_rune, runes_from, runes_of, units_of_rune,
  units_of_runes, is_high, is_low, runes_of_units,
}

leb-true : (a b : ℕ) → a ≤ b → leb a b ≡ true
leb-true a b h = ground arith

leb-false : (a b : ℕ) → b < a → leb a b ≡ false
leb-false a b h = ground arith

not_surrogate :
    (r : ℕ) → (r < 0xD800) ⊎ ((0xE000 ≤ r) × (r ≤ 0x10FFFF)) → within 0xD800 0xDFFF r ≡ false
not_surrogate r h = ground arith

decode_one : (r : ℕ) (rest : Bytes) → r ≤ 0x7F → decode_rune r rest ≡ record { rune = r; more = 0 }
unfolding decode_rune
decode_one r rest h = ground arith

decode_two :
    (r : ℕ) (rest : Bytes)
    → 0x80 ≤ r
    → r ≤ 0x7FF
    → decode_rune (0xC0 + r / 64) ((0x80 + r % 64) ∷ rest) ≡ record { rune = r; more = 1 }
unfolding decode_rune
decode_two r rest h k = ground arith

-- The middle case of a three-byte rune, with the quotients as variables.
decode_three :
    (a b c : ℕ) (rest : Bytes)
    → a < 16
    → b < 64
    → c < 64
    → 0x800 ≤ a * 4096 + b * 64 + c
    → (a * 4096 + b * 64 + c < 0xD800) ⊎ (0xE000 ≤ a * 4096 + b * 64 + c)
    → decode_rune (0xE0 + a) ((0x80 + b) ∷ (0x80 + c) ∷ rest)
      ≡ record { rune = a * 4096 + b * 64 + c; more = 2 }
unfolding decode_rune
decode_three a b c rest ha hb hc lo mid = ground arith

decode_four :
    (a b c d : ℕ) (rest : Bytes)
    → b < 64
    → c < 64
    → d < 64
    → 0x10000 ≤ a * 262144 + b * 4096 + c * 64 + d
    → a * 262144 + b * 4096 + c * 64 + d ≤ 0x10FFFF
    → decode_rune (0xF0 + a) ((0x80 + b) ∷ (0x80 + c) ∷ (0x80 + d) ∷ rest)
      ≡ record { rune = a * 262144 + b * 4096 + c * 64 + d; more = 3 }
unfolding decode_rune
decode_four a b c d rest hb hc hd lo hi = ground arith

abbrev IsScalar : ℕ → Type 0
IsScalar r = (r < 0xD800) ⊎ ((0xE000 ≤ r) × (r ≤ 0x10FFFF))

is_scalar-IsScalar : (r : ℕ) → is_scalar r ≡ true → IsScalar r
is_scalar-IsScalar r h = ground arith

abbrev Decodes : ℕ → Bytes → Type 0
Decodes r rest = runes_from 0 (utf8_of_rune r ++ rest) ≡ r ∷ runes_from 0 rest

Decodes-one : (r : ℕ) (rest : Bytes) → r ≤ 0x7F → Decodes r rest
unfolding runes_from utf8_of_rune
Decodes-one r rest h = rw ((leb-true r 0x7F h), decode_one r rest h) refl

Decodes-two : (r : ℕ) (rest : Bytes) → 0x7F < r → r ≤ 0x7FF → Decodes r rest
unfolding runes_from utf8_of_rune
Decodes-two r rest lo hi =
    rw (leb-false r 0x7F lo, leb-true r 0x7FF hi, decode_two r rest lo hi) refl

Decodes-three : (r : ℕ) (rest : Bytes) → 0x7FF < r → r ≤ 0xFFFF → IsScalar r → Decodes r rest
unfolding runes_from utf8_of_rune
Decodes-three r rest lo hi k =
    let e : r / 4096 * 4096 + r / 64 % 64 * 64 + r % 64 ≡ r = omega arith in
    rw
      (
        leb-false r 0x7F (omega arith),
        leb-false r 0x7FF lo,
        leb-true r 0xFFFF hi,
        not_surrogate r k,
        decode_three (r / 4096) (r / 64 % 64) (r % 64) rest (omega arith) (omega arith)
            (omega arith) (omega arith) (rw e k'),
        e,
      )
      refl
  where
    k' : (r < 0xD800) ⊎ (0xE000 ≤ r)
    k' = omega (arith, k)

Decodes-four : (r : ℕ) (rest : Bytes) → 0xFFFF < r → r ≤ 0x10FFFF → Decodes r rest
unfolding runes_from utf8_of_rune
Decodes-four r rest lo hi =
    let e : r / 262144 * 262144 + r / 4096 % 64 * 4096 + r / 64 % 64 * 64 + r % 64 ≡ r =
      omega arith in
    rw
      (
        leb-false r 0x7F (omega arith),
        leb-false r 0x7FF (omega arith),
        leb-false r 0xFFFF lo,
        leb-true r 0x10FFFF hi,
        decode_four (r / 262144) (r / 4096 % 64) (r / 64 % 64) (r % 64) rest (omega arith)
            (omega arith) (omega arith) (omega arith) (omega arith),
        e,
      )
      refl

-- UTF-8 decoding undoes encoding, for one scalar value with any bytes behind it.
runes_from-utf8_of_rune : (r : ℕ) (rest : Bytes) → is_scalar r ≡ true → Decodes r rest
runes_from-utf8_of_rune r rest h =
    let k = is_scalar-IsScalar r h in
    elim (dec_le r 0x7F) [
      | yes a ↦ Decodes-one r rest a
      | no a ↦ elim (dec_le r 0x7FF) [
        | yes b ↦ Decodes-two r rest (omega arith) b
        | no b ↦ elim (dec_le r 0xFFFF) [
          | yes c ↦ Decodes-three r rest (omega arith) c k
          | no c ↦ Decodes-four r rest (omega arith) (omega (arith, k))
        ]
      ]
    ]

-- []rune of the UTF-8 of scalar values is those values.
pub runes_of-utf8_of : (rs : List ℕ) → every is_scalar rs ≡ true → runes_of (utf8_of rs) ≡ rs
unfolding utf8_of
runes_of-utf8_of [] h = unfold runes_from in refl
runes_of-utf8_of (r ∷ rs) h =
    runes_from-utf8_of_rune r (utf8_of rs) (ground arith)
    ∙ ap (◌∷◌ r) (runes_of-utf8_of rs (ground arith))

-- UTF-16 decoding undoes encoding, for one scalar value with any units behind it.
runes_of_units-bmp :
    (r : ℕ) (us : List ℕ)
    → is_high r ≡ false
    → is_low r ≡ false
    → runes_of_units (r ∷ us) ≡ r ∷ runes_of_units us
unfolding runes_of_units
runes_of_units-bmp r [] h l = rw (h, l) refl
runes_of_units-bmp r (v ∷ us) h l = ground arith

runes_of_units-pair :
    (a b : ℕ) (us : List ℕ)
    → a < 1024
    → b < 1024
    → runes_of_units ((0xD800 + a) ∷ (0xDC00 + b) ∷ us)
      ≡ (a * 1024 + b + 0x10000) ∷ runes_of_units us
unfolding runes_of_units
runes_of_units-pair a b us h k = ground arith

runes_of_units-rune :
    (r : ℕ) (us : List ℕ)
    → is_scalar r ≡ true
    → runes_of_units (units_of_rune r ++ us) ≡ r ∷ runes_of_units us
unfolding units_of_rune
runes_of_units-rune r us h = elim (dec_le r 0xFFFF) [
  | yes a ↦ rw (bmp_unit a) (runes_of_units-bmp r us (ground arith) (ground arith))
  | no a ↦
      let e : (r - 0x10000) / 1024 * 1024 + (r - 0x10000) % 1024 + 0x10000 ≡ r = omega arith in
      rw (supplementary a, supplementary_pair a)
        (runes_of_units-pair ((r - 0x10000) / 1024) ((r - 0x10000) % 1024) us (ground arith)
            (omega arith)
          ∙ rw e refl)
]
  where
    bmp_unit : r ≤ 0xFFFF → (ltb r 0xD800 || within 0xE000 0xFFFF r) ≡ true
    bmp_unit a = ground arith

    supplementary : ¬ (r ≤ 0xFFFF) → (ltb r 0xD800 || within 0xE000 0xFFFF r) ≡ false
    supplementary a = ground arith

    supplementary_pair : ¬ (r ≤ 0xFFFF) → within 0x10000 0x10FFFF r ≡ true
    supplementary_pair a = ground arith

pub runes_of_units-units :
    (rs : List ℕ) → every is_scalar rs ≡ true → runes_of_units (units_of_runes rs) ≡ rs
unfolding units_of_runes
runes_of_units-units [] h = unfold runes_of_units in refl
runes_of_units-units (r ∷ rs) h =
    runes_of_units-rune r (units_of_runes rs) (ground arith)
    ∙ ap (◌∷◌ r) (runes_of_units-units rs (ground arith))
