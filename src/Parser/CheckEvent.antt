-- ===== src/Parser/CheckEvent.antt =====
-- pkg/parser/checkevent.go: Dell CEE's event delivery.
pub mod Number
pub mod Labels
pub mod Times
unfoldable pub use Number.*
use cee_exporter.Common.{
  ℕ, ◌/◌, ◌^◌, ◌+◌, Bool, true, false, ◌&&◌, ◌||◌, Option, none, some, List, [], ◌∷◌, ◌++◌, map,
  ◌==◌, leb, ltb, not, if◌then◌else◌, Bytes, codes, bytes_eq, has_prefix, pos,
}
use cee_exporter.Parser.Text.{trim_space, format_uint, Parsed, value, syntax, range}
use cee_exporter.Parser.Utf16.{decode_body}
use cee_exporter.Parser.Event.{CepaEvent, Time, Outside, CheckEvent, CheckEventRequest}
use cee_exporter.Parser.OneFs.{decode_base64_utf16}

unfoldable pub unmapped_cee_prefix : Bytes
unmapped_cee_prefix = codes "CEPP_CEE_UNMAPPED_"

unfoldable pub cee_event_type : Table
cee_event_type =
    (0x000001, codes "CEPP_OPEN_FILE_NOACCESS")
    ∷ (0x000002, codes "CEPP_OPEN_FILE_READ")
    ∷ (0x000004, codes "CEPP_OPEN_FILE_WRITE")
    ∷ (0x000008, codes "CEPP_CREATE_FILE")
    ∷ (0x000010, codes "CEPP_CREATE_DIRECTORY")
    ∷ (0x000020, codes "CEPP_DELETE_FILE")
    ∷ (0x000040, codes "CEPP_DELETE_DIRECTORY")
    ∷ (0x000080, codes "CEPP_CLOSE_MODIFIED")
    ∷ (0x000100, codes "CEPP_CLOSE_UNMODIFIED")
    ∷ (0x000200, codes "CEPP_RENAME_FILE")
    ∷ (0x000400, codes "CEPP_RENAME_DIRECTORY")
    ∷ (0x000800, codes "CEPP_SETACL_FILE")
    ∷ (0x001000, codes "CEPP_SETACL_DIRECTORY")
    ∷ (0x002000, codes "CEPP_OPEN_DIRECTORY")
    ∷ (0x004000, codes "CEPP_CLOSE_DIRECTORY")
    ∷ (0x008000, codes "CEPP_FILE_READ")
    ∷ (0x010000, codes "CEPP_FILE_WRITE")
    ∷ (0x020000, codes "CEPP_SETSEC_FILE")
    ∷ (0x040000, codes "CEPP_SETSEC_DIRECTORY")
    ∷ (0x080000, codes "CEPP_OPEN_FILE_READ")
    ∷ (0x100000, codes "CEPP_OPEN_FILE_WRITE")
    ∷ []

unfoldable pub cee_event_type_name : Bytes → Bytes
cee_event_type_name raw = elim (parse_cee_num raw 16) [
  | value n ↦ elim (code_name n cee_event_type) [
    | some name ↦ name
    | none ↦ unmapped_cee_prefix ++ format_uint 10 n
  ]
  | syntax ↦ unmapped_cee_prefix ++ codes "INVALID"
  | range ↦ unmapped_cee_prefix ++ codes "INVALID"
]

-- IsUnmappedCEEEventType
unfoldable pub is_unmapped_cee_event_type : Bytes → Bool
is_unmapped_cee_event_type event_type = has_prefix event_type unmapped_cee_prefix

-- ceeTimestamp after the number is parsed.
unfoldable pub instant_of : Parsed → Time → Time
instant_of syntax fallback = fallback
instant_of range fallback = fallback
instant_of (value n) fallback =
    if n == 0
    then fallback
    else if ltb 0xFFFFFFFF n
    then record { sec = pos (n / 2 ^ 32); nsec = 0 }
    else record { sec = pos n; nsec = 0 }

unfoldable pub cee_timestamp : Bytes → Time → Time
cee_timestamp raw fallback =
    let s = trim_space raw in
    if is_empty s then fallback else instant_of (parse_cee_num s 10) fallback

unfoldable pub cee_user_sid : CheckEvent → Bytes
cee_user_sid e =
    if not (is_empty e.user_sid)
    then e.user_sid
    else if not (is_empty e.ext.user_id)
    then codes "S-1-22-1-" ++ e.ext.user_id
    else []

-- strings.ToLower, as far as the names it is compared with go: no character outside ASCII has one
-- of their letters as its lower case.
unfoldable pub to_lower : Bytes → Bytes
to_lower s = map (λ c. if leb b'A' c && leb c b'Z' then c + 32 else c) s

-- The encoding types of decodeCEEEncoded.
unfoldable pub known_encoding : Bytes → Bool
known_encoding s =
    is_empty s
    || bytes_eq s (codes "base64")
    || bytes_eq s (codes "base64utf16")
    || bytes_eq s (codes "utf16")

module _ (lib : Outside) where
  unfoldable pub decode_cee_encoded : Bytes → Bytes → Option Bytes
  decode_cee_encoded s encoding_type =
      if known_encoding (to_lower (trim_space encoding_type))
      then decode_base64_utf16 lib s
      else none

  unfoldable pub cee_event_path : CheckEvent → Bytes
  cee_event_path e =
      if not (is_empty e.encoded_path)
      then elim (decode_cee_encoded e.encoded_path e.encoding_type) [
        | none ↦ e.path
        | some p ↦ if is_empty p then e.path else p
      ]
      else e.path

  unfoldable pub convert_check_event : CheckEvent → Time → CepaEvent
  convert_check_event e fallback = record {
    event_type = cee_event_type_name e.event;
    file_path = cee_event_path e;
    username = [];
    domain = [];
    user_sid = cee_user_sid e;
    logon_id = [];
    client_addr = e.client_ip;
    protocol = cee_protocol_name e.protocol;
    server = trim_space e.server;
    timestamp = cee_timestamp e.time_stamp fallback;
    bytes_read = pos 0;
    bytes_written = pos 0;
    number_of_reads = pos 0;
    number_of_writes = pos 0;
  }

  -- The loop of parseCheckEventRequestDecoded.
  unfoldable pub convert_check_events : List CheckEvent → Time → List CepaEvent
  convert_check_events [] receive_time = []
  convert_check_events (e ∷ es) receive_time =
      convert_check_event e receive_time ∷ convert_check_events es receive_time

  unfoldable pub parse_check_event_request_decoded : Bytes → Time → Option (List CepaEvent)
  parse_check_event_request_decoded decoded receive_time =
      elim (lib.unmarshal_check_event decoded) [
        | none ↦ none
        | some r ↦ elim (r.events) [
          | [] ↦ none
          | e ∷ es ↦ some (convert_check_events (e ∷ es) receive_time)
        ]
      ]

  unfoldable pub parse_check_event_request : Bytes → Time → Option (List CepaEvent)
  parse_check_event_request body receive_time = elim (decode_body body) [
    | none ↦ none
    | some decoded ↦ parse_check_event_request_decoded decoded receive_time
  ]
