-- ===== src/Parser/CheckEvent/Number.antt =====
-- The numbers and the tables of codes of pkg/parser/checkevent.go.
use cee_exporter.Common.{
  ℕ, Bool, true, false, Option, none, some, List, [], ◌∷◌, ◌==◌, if◌then◌else◌, Bytes, codes,
  strip_prefix,
}
use cee_exporter.Parser.Text.{trim_space, parse_uint, Parsed, value, syntax, range}

-- A map from codes to names.
abbrev pub Table : Type 0
Table = List (ℕ × Bytes)

unfoldable pub code_name : ℕ → Table → Option Bytes
code_name n [] = none
code_name n ((k, name) ∷ t) = if k == n then some name else code_name n t

-- What follows 0x or 0X.
unfoldable pub hex_digits : Bytes → Option Bytes
hex_digits s = elim (strip_prefix s (codes "0x")) [
  | some r ↦ some r
  | none ↦ strip_prefix s (codes "0X")
]

unfoldable pub is_empty : Bytes → Bool
is_empty [] = true
is_empty (c ∷ s) = false

unfoldable pub parse_cee_num : Bytes → ℕ → Parsed
parse_cee_num raw unprefixed_base =
    let s = trim_space raw in
    if is_empty s
    then syntax
    else elim (hex_digits s) [ some r ↦ parse_uint 16 r | none ↦ parse_uint unprefixed_base s ]

unfoldable pub cee_protocol_names : Table
cee_protocol_names =
    (0, codes "CIFS") ∷ (1, codes "NFS") ∷ (2, codes "FTP") ∷ (3, codes "Unknown") ∷ []

unfoldable pub cee_protocol_name : Bytes → Bytes
cee_protocol_name raw = elim (parse_cee_num raw 10) [
  | value n ↦ elim (code_name n cee_protocol_names) [ some name ↦ name | none ↦ codes "Unknown" ]
  | syntax ↦ codes "Unknown"
  | range ↦ codes "Unknown"
]
