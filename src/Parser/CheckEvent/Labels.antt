-- ===== src/Parser/CheckEvent/Labels.antt =====
-- The event labels of pkg/parser/checkevent.go: what a label says about the code it stands for.
use cee_exporter.Common.{
  ℕ, ◌^◌, ◌<◌, ◌≡◌, refl, ◌∙◌, Bool, true, false, not, Option, none, some, [], ◌∷◌, ◌++◌, Bytes,
  codes, arith, every, has_prefix, strip_prefix, Bool-cases, inl, inr,
}
use cee_exporter.Parser.Text.{
  Parsed, value, syntax, range, parse_uint, parse_digits, digit_in, digit_of, format_uint,
  trim_space,
}
use cee_exporter.Parser.Text.NumberLaws.{Fits, parse_uint-Fits}
use cee_exporter.Parser.Text.NumberRoundTrip.{parse_uint-format, ten_IsBase}
use cee_exporter.Parser.CheckEvent.Number.{Table, code_name, parse_cee_num, hex_digits, is_empty}
use cee_exporter.Parser.CheckEvent.{
  unmapped_cee_prefix, cee_event_type, cee_event_type_name, is_unmapped_cee_event_type,
}

abbrev all_mapped : Table → Bool
all_mapped t = every (λ ((k, name) : ℕ × Bytes). not (is_unmapped_cee_event_type name)) t

code_name-mapped :
    (n : ℕ) (t : Table) (name : Bytes)
    → all_mapped t ≡ true
    → code_name n t ≡ some name
    → is_unmapped_cee_event_type name ≡ false
unfolding code_name
code_name-mapped n [] name h e = ground arith
code_name-mapped n ((k, v) ∷ t) name h e = ground (arith, code_name-mapped n t name)

table_mapped : all_mapped cee_event_type ≡ true
unfolding cee_event_type is_unmapped_cee_event_type unmapped_cee_prefix codes has_prefix
table_mapped = refl

strip_prefix_append :
    (p r : Bytes) → (strip_prefix (p ++ r) p ≡ some r) × (has_prefix (p ++ r) p ≡ true)
unfolding strip_prefix has_prefix
strip_prefix_append [] r = (refl, refl)
strip_prefix_append (c ∷ p) r = ground (arith, strip_prefix_append p r)

parse_cee_num-Fits : (raw : Bytes) (base : ℕ) → Fits (parse_cee_num raw base)
unfolding parse_cee_num
parse_cee_num-Fits raw base = elim (Bool-cases (is_empty (trim_space raw))) [
  | inl e ↦ rw (e, parse_cee_num) tt
  | inr e ↦ rw (e, parse_cee_num) (go (hex_digits (trim_space raw)))
]
  where
    go :
        (o : Option Bytes)
        → Fits (elim o [ some r ↦ parse_uint 16 r | none ↦ parse_uint base (trim_space raw) ])
    go none = parse_uint-Fits base (trim_space raw)
    go (some r) = parse_uint-Fits 16 r

-- The code that an unmapped label carries, as a decimal number after the prefix.
unfoldable pub code_of_label : Bytes → Parsed
code_of_label label = elim (strip_prefix label unmapped_cee_prefix) [
  | none ↦ syntax
  | some digits ↦ parse_uint 10 digits
]

is_unmapped-prefix : (r : Bytes) → is_unmapped_cee_event_type (unmapped_cee_prefix ++ r) ≡ true
unfolding is_unmapped_cee_event_type
is_unmapped-prefix r = (strip_prefix_append unmapped_cee_prefix r).1

code_of_label-prefix : (r : Bytes) → code_of_label (unmapped_cee_prefix ++ r) ≡ parse_uint 10 r
unfolding code_of_label
code_of_label-prefix r = rw ((strip_prefix_append unmapped_cee_prefix r).0, code_of_label) refl

invalid_code : code_of_label (unmapped_cee_prefix ++ codes "INVALID") ≡ syntax
unfolding parse_uint parse_digits digit_in digit_of codes
invalid_code = code_of_label-prefix (codes "INVALID") ∙ refl

-- A label beside the table's entry for its code: the name it must be, which is not an unmapped
-- one, or none, and then the label is unmapped and the code can be read back.
abbrev pub Entry : Bytes → ℕ → Option Bytes → Type 0
Entry label n (some name) = (label ≡ name) × (is_unmapped_cee_event_type label ≡ false)
Entry label n none = (is_unmapped_cee_event_type label ≡ true) × (code_of_label label ≡ value n)

-- What a label says of the attribute it was made from; one that is no number is unmapped and
-- carries no code.
abbrev pub Says : Bytes → Parsed → Type 0
Says label (value n) = Entry label n (code_name n cee_event_type)
Says label syntax = (is_unmapped_cee_event_type label ≡ true) × (code_of_label label ≡ syntax)
Says label range = (is_unmapped_cee_event_type label ≡ true) × (code_of_label label ≡ syntax)

-- For every event attribute, the label says what the code was: a code of Dell's table has its
-- name, any other 64-bit code is unmapped and can be read back from the label, and what is no
-- number, or no 64-bit one, is unmapped and carries no code.
pub cee_event_type_name-Says : (raw : Bytes) → Says (cee_event_type_name raw) (parse_cee_num raw 16)
unfolding cee_event_type_name
cee_event_type_name-Says raw = go (parse_cee_num raw 16) (parse_cee_num-Fits raw 16)
  where
    named :
        (n : ℕ) (o : Option Bytes)
        → n < 2 ^ 64
        → code_name n cee_event_type ≡ o
        → Entry (elim o [ some name ↦ name | none ↦ unmapped_cee_prefix ++ format_uint 10 n ]) n o
    named n (some name) h e = (refl, code_name-mapped n cee_event_type name table_mapped e)
    named n none h e = (
      is_unmapped-prefix (format_uint 10 n),
      code_of_label-prefix (format_uint 10 n) ∙ parse_uint-format 10 n ten_IsBase h,
    )

    go :
        (p : Parsed)
        → Fits p
        → Says
            (elim p [
              | value n ↦ elim (code_name n cee_event_type) [
                | some name ↦ name
                | none ↦ unmapped_cee_prefix ++ format_uint 10 n
              ]
              | syntax ↦ unmapped_cee_prefix ++ codes "INVALID"
              | range ↦ unmapped_cee_prefix ++ codes "INVALID"
            ])
            p
    go syntax h = (is_unmapped-prefix (codes "INVALID"), invalid_code)
    go range h = (is_unmapped-prefix (codes "INVALID"), invalid_code)
    go (value n) h = named n (code_name n cee_event_type) h refl
