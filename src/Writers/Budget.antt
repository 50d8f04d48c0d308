-- ===== src/Writers/Budget.antt =====
-- The budget of pkg/evtx/writer_evtx_notwindows.go on the encoded fields. The map of fields is a
-- list of its entries in the order of an iteration, which Go leaves open.
pub mod Cuts
pub mod Termination
pub mod Encoded
pub mod Fits
use cee_exporter.Common.{
  ℕ, zero, suc, ◌+◌, ◌-◌, ◌*◌, ◌/◌, Bool, true, false, not, ◌&&◌, ◌||◌, Option, none, some, List,
  [], ◌∷◌, ◌++◌, ltb, leb, ◌==◌, if◌then◌else◌, Bytes, codes, length, take, get_elem?, total,
}
use cee_exporter.Common.Assoc.{Assoc, bytes_key, adjust, lookup}
use cee_exporter.Parser.Utf16.{runes_of, units_of_runes}

-- "…[truncated]"
unfoldable pub truncation_marker : Bytes
truncation_marker = 0xE2 ∷ 0x80 ∷ 0xA6 ∷ codes "[truncated]"

abbrev pub max_encoded_fields_bytes : ℕ
max_encoded_fields_bytes = 64996 - 4096

abbrev pub max_field_bytes : ℕ
max_field_bytes = 8192

unfoldable pub encoded_len : Bytes → ℕ
encoded_len s = 4 + 2 * length (units_of_runes (runes_of s))

-- utf8.RuneStart(s[i])
unfoldable pub rune_start : Bytes → ℕ → Bool
rune_start s i = elim (get_elem? s i) [ none ↦ true | some b ↦ not (leb 0x80 b && ltb b 0xC0) ]

-- `for keep > 0 && !utf8.RuneStart(s[keep])`
unfoldable pub back_off : Bytes → ℕ → ℕ
back_off s zero = zero
back_off s (suc keep) = elim (rune_start s (suc keep)) [ true ↦ suc keep | false ↦ back_off s keep ]

unfoldable pub truncate_field : Bytes → Bytes × Bool
truncate_field s =
    if leb (length s) max_field_bytes
    then (s, false)
    else (take (back_off s (max_field_bytes - 14)) s ++ truncation_marker, true)

abbrev pub Fields : Type 0
Fields = Assoc Bytes Bytes

abbrev pub encoded_total : Fields → ℕ
encoded_total fields = total (λ ((k, v) : Bytes × Bytes). encoded_len v) fields

-- The longest value so far, and the key it has.
unfoldable pub longest_from : Fields → Bytes → Bytes → Bytes × Bytes
longest_from [] key value = (key, value)
longest_from ((k, v) ∷ fields) key value =
    if ltb (length value) (length v) then longest_from fields k v else longest_from fields key value

-- The body of the loop: `none` is a break.
unfoldable pub shorten : Fields → Bytes × Bytes → Option Fields
shorten fields (key, value) =
    let longest = length value in
    let keep = back_off value (longest / 2) in
    if leb longest 14
    then none
    else if leb longest (keep + 14)
    then none
    else some (adjust key (λ v. take keep value ++ truncation_marker) fields)

-- The loop, on fuel; `none` is out of fuel.
unfoldable pub budget_loop : ℕ → Fields → Option Fields
budget_loop zero fields = none
budget_loop (suc fuel) fields = elim (leb (encoded_total fields) max_encoded_fields_bytes) [
  | true ↦ some fields
  | false ↦ elim (shorten fields (longest_from fields [] [])) [
    | none ↦ some fields
    | some fields' ↦ budget_loop fuel fields'
  ]
]

abbrev pub field_bytes : Fields → ℕ
field_bytes fields = total (λ ((k, v) : Bytes × Bytes). length v) fields

-- enforceEncodedBudget, with the fields after it.
unfoldable pub enforce_encoded_budget : Fields → Option (Fields × Bool)
enforce_encoded_budget fields =
    if leb (encoded_total fields) max_encoded_fields_bytes
    then some (fields, false)
    else elim (budget_loop (suc (field_bytes fields)) fields) [
      | none ↦ none
      | some fields' ↦ some (fields', true)
    ]
