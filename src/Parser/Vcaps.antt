-- ===== src/Parser/Vcaps.antt =====
-- pkg/parser/parser.go: the CEEEvent and EventBatch payloads.
use cee_exporter.Common.{
  ℕ, Option, none, some, List, [], ◌∷◌, if◌then◌else◌, Bytes, codes, leb, length, take,
}
use cee_exporter.Parser.Utf16.{decode_body}
use cee_exporter.Parser.Event.{CepaEvent, Time, Outside, RawEvent}
use cee_exporter.Parser.CheckEvent.{cee_protocol_name, is_empty}
use cee_exporter.Parser.OneFs.{parse_int64}

unfoldable pub ts_formats : List Bytes
ts_formats =
    codes "2006-01-02T15:04:05.999999999Z07:00"
    ∷ codes "2006-01-02T15:04:05Z07:00"
    ∷ codes "2006-01-02T15:04:05"
    ∷ codes "2006-01-02 15:04:05"
    ∷ codes "20060102150405"
    ∷ []

-- truncate
unfoldable pub truncate : Bytes → ℕ → Bytes
truncate s max = if leb (length s) max then s else take max s

module _ (lib : Outside) where
  -- The loop of parseTimestamp over the layouts.
  unfoldable pub first_layout : List Bytes → Bytes → Time → Time
  first_layout [] s fallback = fallback
  first_layout (f ∷ fs) s fallback = elim (lib.parse_time f s) [
    | some t ↦ t
    | none ↦ first_layout fs s fallback
  ]

  unfoldable pub parse_timestamp : Bytes → Time → Time
  parse_timestamp s fallback = if is_empty s then fallback else first_layout ts_formats s fallback

  unfoldable pub convert : RawEvent → Time → CepaEvent
  convert r fallback = record {
    event_type = r.event_type;
    file_path = r.file_path;
    username = r.username;
    domain = r.domain;
    user_sid = r.user_sid;
    logon_id = r.logon_id;
    client_addr = r.client_address;
    protocol = cee_protocol_name [];
    server = [];
    timestamp = parse_timestamp r.timestamp fallback;
    bytes_read = parse_int64 r.bytes_read;
    bytes_written = parse_int64 r.bytes_written;
    number_of_reads = parse_int64 r.number_of_reads;
    number_of_writes = parse_int64 r.number_of_writes;
  }

  unfoldable pub convert_all : List RawEvent → Time → List CepaEvent
  convert_all [] fallback = []
  convert_all (r ∷ rs) fallback = convert r fallback ∷ convert_all rs fallback

  -- The second half of parseDecoded: a lone CEEEvent.
  unfoldable pub parse_single : Bytes → Time → Option (List CepaEvent)
  parse_single body receive_time = elim (lib.unmarshal_single body) [
    | none ↦ none
    | some single ↦
        if is_empty single.event_type then none else some (convert single receive_time ∷ [])
  ]

  unfoldable pub parse_decoded : Bytes → Time → Option (List CepaEvent)
  parse_decoded body receive_time = elim (lib.unmarshal_batch body) [
    | none ↦ parse_single body receive_time
    | some [] ↦ parse_single body receive_time
    | some (r ∷ rs) ↦ some (convert_all (r ∷ rs) receive_time)
  ]

  -- Parse
  unfoldable pub parse : Bytes → Time → Option (List CepaEvent)
  parse [] receive_time = none
  parse (c ∷ body) receive_time = elim (decode_body (c ∷ body)) [
    | none ↦ none
    | some decoded ↦ parse_decoded decoded receive_time
  ]

  -- checkFileActionDecoded: an error is the empty action.
  unfoldable pub check_file_action_decoded : Bytes → Bytes
  check_file_action_decoded decoded = elim (lib.unmarshal_action decoded) [
    | none ↦ []
    | some action ↦ action
  ]
