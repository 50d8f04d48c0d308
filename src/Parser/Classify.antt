-- ===== src/Parser/Classify.antt =====
-- pkg/parser/classify.go: the dialect of a payload, from its root element.
pub mod Exclusive
pub mod Agreement
use cee_exporter.Common.{
  ℕ, Bool, true, false, ◌&&◌, ◌||◌, Option, none, some, List, [], ◌∷◌, ◌++◌, ◌==◌, if◌then◌else◌,
  Bytes, codes, has_prefix, strip_prefix, drop,
}
use cee_exporter.Parser.Text.{trim_space}
use cee_exporter.Parser.Utf16.{decode_body}

pub data Dialect : Type 0 where
  dialect_unknown : Dialect
  dialect_register_request : Dialect
  dialect_heart_beat_request : Dialect
  dialect_check_file_request : Dialect
  dialect_check_event_request : Dialect

-- What follows the first occurrence of the two bytes (bytes.Index), if they occur.
unfoldable pub after_pair : ℕ → ℕ → Bytes → Option Bytes
after_pair p q [] = none
after_pair p q (a ∷ []) = none
after_pair p q (a ∷ b ∷ s) =
    let rest = after_pair p q (b ∷ s) in if a == p && b == q then some s else rest

-- bytes.IndexByte(s, b) >= 0
unfoldable pub has_byte : ℕ → Bytes → Bool
has_byte b [] = false
has_byte b (c ∷ s) = c == b || has_byte b s

-- rootIs up to the root element: white space and an XML declaration skipped.
unfoldable pub root_of : Bytes → Bytes
root_of decoded =
    let trimmed = trim_space decoded in
    if has_prefix trimmed (codes "<?xml")
    then elim (after_pair b'?' b'>' trimmed) [ none ↦ trimmed | some s ↦ trim_space s ]
    else trimmed

-- The `switch rest[0]` of rootIs.
unfoldable pub name_ends : Bytes → Bool
name_ends [] = false
name_ends (c ∷ s) =
    if c == b'>'
    then true
    else if c == b'/' || c == b' ' || c == 0x09 || c == 0x0D || c == 0x0A
    then has_byte b'>' (c ∷ s)
    else false

unfoldable pub root_is : Bytes → Bytes → Bool
root_is decoded name = elim (strip_prefix (root_of decoded) (b'<' ∷ name)) [
  | none ↦ false
  | some rest ↦ name_ends rest
]

unfoldable pub classify_decoded : Bytes → Dialect
classify_decoded decoded =
    if root_is decoded (codes "RegisterRequest")
    then dialect_register_request
    else if root_is decoded (codes "HeartBeatRequest")
    then dialect_heart_beat_request
    else if root_is decoded (codes "CheckFileRequest")
    then dialect_check_file_request
    else if root_is decoded (codes "CheckEventRequest")
    then dialect_check_event_request
    else dialect_unknown

-- The dialect and the decoded body; `none` is the error.
unfoldable pub classify : Bytes → Option (Dialect × Bytes)
classify body = elim (decode_body body) [
  | none ↦ none
  | some decoded ↦ some (classify_decoded decoded, decoded)
]

-- rootElementIs
unfoldable pub root_element_is : Bytes → Bytes → Bool
root_element_is body name = elim (decode_body body) [
  | none ↦ false
  | some decoded ↦ root_is decoded name
]

unfoldable pub is_register_request : Bytes → Bool
is_register_request body = root_element_is body (codes "RegisterRequest")

unfoldable pub is_heart_beat_request : Bytes → Bool
is_heart_beat_request body = root_element_is body (codes "HeartBeatRequest")

unfoldable pub is_check_file_request : Bytes → Bool
is_check_file_request body = root_element_is body (codes "CheckFileRequest")

unfoldable pub is_check_event_request : Bytes → Bool
is_check_event_request body = root_element_is body (codes "CheckEventRequest")
