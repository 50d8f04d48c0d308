-- ===== src/Tests/Documents.antt =====
-- pkg/parser and pkg/mapper at small payloads.
use cee_exporter.Common.{
  ◌≡◌, refl, ◌⊎◌, inr, true, false, some, [], ◌∷◌, Bytes, codes, length, pos, arith, strip_prefix,
  has_prefix, every,
}
use cee_exporter.Parser.Utf16.{decode_body, is_utf16, encode_utf16le, utf8_of}
use cee_exporter.Parser.Utf16.RoundTrip.{decode_body-encode}
use cee_exporter.Parser.Utf16.Detect.{decode_body-FailsOdd, FailsOdd}
use cee_exporter.Parser.Text.{
  trim_space, trim_by, space_at, space_back, parse_int, parse_uint, parse_digits, digit_in,
  digit_of,
}
use cee_exporter.Parser.Event.{Time}
use cee_exporter.Parser.Text.{format_uint, digits_onto}
use cee_exporter.Parser.CheckEvent.Labels.{Says, cee_event_type_name-Says}
use cee_exporter.Parser.Classify.Agreement.{asked, expected, classify-agrees}
use cee_exporter.Parser.Classify.{
  classify, root_is, root_of, name_ends, has_byte, after_pair, classify_decoded,
  dialect_register_request,
}
use cee_exporter.Parser.Classify.Exclusive.{is_name_byte}
use cee_exporter.Parser.CheckEvent.{
  cee_timestamp, instant_of, parse_cee_num, hex_digits, is_empty, code_name, cee_event_type,
  cee_event_type_name, unmapped_cee_prefix,
}
use cee_exporter.Parser.CheckEvent.Times.{cee_timestamp-Whole, IsWholeSecond}
use cee_exporter.Parser.OneFs.{onefs_event_type, onefs_timestamp}
use cee_exporter.Mapper.Tables.{parsed_names-mapped, is_mapped}

decode_body-encode_example :
    decode_body (encode_utf16le (utf8_of (b'<' ∷ 0xE9 ∷ 0x1F600 ∷ [])))
    ≡ some (utf8_of (b'<' ∷ 0xE9 ∷ 0x1F600 ∷ []))
decode_body-encode_example =
    decode_body-encode b'<' (0xE9 ∷ 0x1F600 ∷ []) (omega arith) (omega arith) refl

abbrev cut_short : Bytes
cut_short = b'<' ∷ 0 ∷ b'a' ∷ []

odd : is_utf16 cut_short ≡ true
unfolding is_utf16
odd = refl

decode_body-FailsOdd_example : FailsOdd (decode_body cut_short) (length cut_short)
decode_body-FailsOdd_example = decode_body-FailsOdd cut_short odd

plain : is_utf16 (b'<' ∷ b'a' ∷ []) ≡ false
unfolding is_utf16
plain = refl

abbrev request : Bytes
request = codes " <?xml version=\"1.0\"?>\n<RegisterRequest />"

is_register : root_is request (codes "RegisterRequest") ≡ true
unfolding root_is root_of name_ends has_byte after_pair trim_space trim_by space_at space_back codes
    strip_prefix has_prefix
is_register = refl

classified :
    (classify_decoded (codes "<RegisterRequest>") ≡ dialect_register_request)
    × (root_is (codes "<RegisterRequestBatch>") (codes "RegisterRequest") ≡ false)
    × (root_is (codes "<RegisterRequest a") (codes "RegisterRequest") ≡ false)
unfolding classify_decoded root_is root_of name_ends has_byte after_pair trim_space trim_by space_at
    space_back codes strip_prefix has_prefix
classified = (refl, refl, refl)

name_bytes : every is_name_byte (codes "RegisterRequest") ≡ true
unfolding codes
name_bytes = refl

abbrev received : Time
received = record { sec = pos 1000; nsec = 5 }

-- seconds in the high word
packed :
    (cee_timestamp (codes "0x6A60ABCD00000001") received
      ≡ record { sec = pos 0x6A60ABCD; nsec = 0 })
    × (cee_timestamp (codes "junk") received ≡ received)
unfolding cee_timestamp instant_of parse_cee_num hex_digits is_empty trim_space trim_by space_at
    space_back codes strip_prefix parse_uint parse_digits digit_in digit_of
packed = (refl, refl)

cee_timestamp-Whole_example :
    (cee_timestamp (codes "0x6A60ABCD00000001") received ≡ received)
    ⊎ IsWholeSecond (cee_timestamp (codes "0x6A60ABCD00000001") received)
cee_timestamp-Whole_example = cee_timestamp-Whole (codes "0x6A60ABCD00000001") received

deletes : code_name 32 onefs_event_type ≡ some (codes "CEPP_DELETE_FILE")
unfolding code_name onefs_event_type
deletes = refl

parsed_names-mapped_example : is_mapped (codes "CEPP_DELETE_FILE") ≡ true
parsed_names-mapped_example = parsed_names-mapped 32 (codes "CEPP_DELETE_FILE") (inr deletes)

-- microseconds out of range are dropped, the seconds kept
micros_dropped :
    onefs_timestamp (codes "1700000000") (codes "1000000") received
    ≡ record { sec = pos 1700000000; nsec = 0 }
unfolding onefs_timestamp parse_int trim_space trim_by space_at space_back codes parse_uint
    parse_digits digit_in digit_of
micros_dropped = refl

-- an unmapped code is in the label
unmapped :
    (cee_event_type_name (codes "0x200000") ≡ codes "CEPP_CEE_UNMAPPED_2097152")
    × (cee_event_type_name (codes "0x8") ≡ codes "CEPP_CREATE_FILE")
    × (cee_event_type_name (codes "none") ≡ codes "CEPP_CEE_UNMAPPED_INVALID")
unfolding cee_event_type_name parse_cee_num hex_digits strip_prefix is_empty trim_space trim_by
    space_at space_back codes parse_uint parse_digits digit_in digit_of code_name cee_event_type
    unmapped_cee_prefix format_uint digits_onto
unmapped = (refl, refl, refl)

cee_event_type_name-Says_example :
    Says (cee_event_type_name (codes "0x200000")) (parse_cee_num (codes "0x200000") 16)
cee_event_type_name-Says_example = cee_event_type_name-Says (codes "0x200000")

classify-agrees_example : asked request ≡ expected (classify request)
classify-agrees_example = classify-agrees request
