-- ===== src/Server/Redact.antt =====
-- pkg/server/redact.go: a payload for a log line, without its values. strings.ToValidUTF8 and
-- sha256.Sum256 are parameters.
pub mod Silence
use cee_exporter.Common.{
  ℕ, zero, suc, ◌+◌, ◌/◌, ◌%◌, Bool, true, false, not, ◌&&◌, ◌||◌, Option, none, some, List, [],
  ◌∷◌, ◌++◌, ◌==◌, ltb, leb, if◌then◌else◌, Bytes, codes, length, take,
}
use cee_exporter.Parser.Text.{trim_space, digit_char}
use cee_exporter.Parser.CheckEvent.Number.{is_empty}

abbrev pub max_redacted_payload : ℕ
max_redacted_payload = 512

-- Where the loops stand: between tags, in a tag, in a text with the bytes passed, or in a quoted
-- value with its quote.
pub data Mode : Type 0 where
  outside : Mode
  inside : Mode
  in_text : Bytes → Mode
  in_value : ℕ → Mode

-- What one byte does: go on, or stop at the bound.
pub data Step : Type 0 where
  go : Mode → Bytes → Step
  cut : Bytes → Step

-- `out` after a text node.
unfoldable pub text_mark : Bytes → Bytes → Bytes
text_mark passed out = if is_empty (trim_space passed) then out else out ++ codes "..."

-- The test at the head of the loop, then the case of the switch.
unfoldable pub redact_step : Mode → ℕ → Bytes → Step
redact_step outside c out =
    if leb max_redacted_payload (length out)
    then cut out
    else if c == b'<'
    then go inside (out ++ c ∷ [])
    else go (in_text (c ∷ [])) out
redact_step inside c out =
    if leb max_redacted_payload (length out)
    then cut out
    else if c == b'>'
    then go outside (out ++ c ∷ [])
    else if c == b'"' || c == 0x27
    then go (in_value c) out
    else go inside (out ++ c ∷ [])
redact_step (in_text passed) c out =
    if c == b'<'
    then if leb max_redacted_payload (length (text_mark passed out))
      then cut (text_mark passed out)
      else go inside (text_mark passed out ++ c ∷ [])
    else go (in_text (passed ++ c ∷ [])) out
redact_step (in_value quote) c out =
    if c == quote then go inside (out ++ codes "\"...\"") else go (in_value quote) out

-- The end of the payload.
unfoldable pub redact_end : Mode → Bytes → Bytes
redact_end outside out = out
redact_end inside out = out
redact_end (in_text passed) out = text_mark passed out
redact_end (in_value quote) out = out ++ codes "\"...\""

-- The loop: the output, and whether it was truncated.
unfoldable pub redact_loop : Mode → Bytes → Bytes → Bytes × Bool
redact_loop m out [] = (redact_end m out, false)
redact_loop m out (c ∷ s) = elim (redact_step m c out) [
  | cut out' ↦ (out', true)
  | go m' out' ↦ redact_loop m' out' s
]

unfoldable pub bounded : (Bytes → Bytes) → Bytes × Bool → Bytes
bounded to_valid_utf8 (s, truncated) =
    if not truncated && leb (length s) max_redacted_payload
    then s
    else (if ltb max_redacted_payload (length s)
        then to_valid_utf8 (take max_redacted_payload s)
        else s)
      ++ codes "...(truncated)"

unfoldable pub redact_payload : (Bytes → Bytes) → Bytes → Bytes
redact_payload to_valid_utf8 b = bounded to_valid_utf8 (redact_loop outside [] b)

-- hex.EncodeToString
unfoldable pub hex_encode : Bytes → Bytes
hex_encode [] = []
hex_encode (c ∷ s) = digit_char (c / 16) ∷ digit_char (c % 16) ∷ hex_encode s

-- payloadDigest, with sha256.Sum256.
unfoldable pub payload_digest : (Bytes → Bytes) → Bytes → Bytes
payload_digest sha256 b = hex_encode (take 8 (sha256 b))
