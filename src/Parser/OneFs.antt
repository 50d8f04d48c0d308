-- ===== src/Parser/OneFs.antt =====
-- pkg/parser/onefs.go: the events of a OneFS CheckFileRequest.
pub mod Times
use cee_exporter.Common.{
  ℕ, zero, suc, ◌*◌, Bool, Option, none, some, List, [], ◌∷◌, ◌++◌, ltb, if◌then◌else◌, Bytes,
  codes, has_prefix, ℤ, pos, negsuc, ◌+◌,
}
use cee_exporter.Parser.Text.{trim_space, parse_int, format_uint}
use cee_exporter.Parser.Utf16.{decode_body}
use cee_exporter.Parser.Event.{CepaEvent, Time, Outside, OneFsRequest, OneFsNfsEventArgs}
use cee_exporter.Parser.CheckEvent.Number.{cee_protocol_name, code_name, Table}

unfoldable pub unmapped_prefix : Bytes
unmapped_prefix = codes "CEPP_ONEFS_UNMAPPED_"

unfoldable pub onefs_event_type : Table
onefs_event_type =
    (8, codes "CEPP_CREATE_FILE")
    ∷ (32, codes "CEPP_DELETE_FILE")
    ∷ (128, codes "CEPP_CLOSE_MODIFIED")
    ∷ (256, codes "CEPP_CLOSE_UNMODIFIED")
    ∷ (512, codes "CEPP_RENAME_FILE")
    ∷ (2048, codes "CEPP_SETACL_FILE")
    ∷ []

-- IsUnmappedOneFSEventType
unfoldable pub is_unmapped_one_fs_event_type : Bytes → Bool
is_unmapped_one_fs_event_type event_type = has_prefix event_type unmapped_prefix

-- strconv.Itoa
unfoldable pub itoa : ℤ → Bytes
itoa (pos n) = format_uint 10 n
itoa (negsuc n) = b'-' ∷ format_uint 10 (n + 1)

-- The map onefsEventType at an int: it has no negative keys.
unfoldable pub onefs_name : ℤ → Option Bytes
onefs_name (pos n) = code_name n onefs_event_type
onefs_name (negsuc n) = none

unfoldable pub onefs_event_type_name : Bytes → Bytes
onefs_event_type_name raw =
    let n = parse_int (trim_space raw) in
    if n.failed
    then unmapped_prefix ++ codes "INVALID"
    else elim (onefs_name n.int) [ some name ↦ name | none ↦ unmapped_prefix ++ itoa n.int ]

-- The positive integers of a parsed field.
abbrev pub positive_int : ℤ → Option ℕ
positive_int (pos zero) = none
positive_int (pos (suc n)) = some (suc n)
positive_int (negsuc n) = none

-- `us < 0 || us >= 1_000_000` gives 0
abbrev pub micros : ℤ → ℕ
micros (pos n) = if ltb n 1000000 then n else 0
micros (negsuc n) = 0

unfoldable pub onefs_timestamp : Bytes → Bytes → Time → Time
onefs_timestamp sec usec fallback =
    let s = parse_int (trim_space sec) in
    let us = parse_int (trim_space usec) in
    if s.failed then fallback else elim (positive_int s.int) [
      | none ↦ fallback
      | some n ↦ record { sec = pos n; nsec = (if us.failed then 0 else micros us.int) * 1000 }
    ]

-- parseInt64
unfoldable pub parse_int64 : Bytes → ℤ
parse_int64 [] = pos 0
parse_int64 (c ∷ s) = (parse_int (trim_space (c ∷ s))).int

module _ (lib : Outside) where
  unfoldable pub decode_base64_utf16 : Bytes → Option Bytes
  decode_base64_utf16 [] = none
  decode_base64_utf16 (c ∷ s) = elim (lib.base64_decode (c ∷ s)) [
    | none ↦ none
    | some raw ↦ decode_body raw
  ]

  -- The events of a request with <NFSEventArgs>.
  unfoldable pub one_fs_events : OneFsRequest → OneFsNfsEventArgs → Time → Option (List CepaEvent)
  one_fs_events r nfs receive_time = elim (decode_base64_utf16 r.name) [
    | none ↦ none
    | some path ↦ some (
        record {
          event_type = onefs_event_type_name nfs.event_type;
          file_path = path;
          username = [];
          domain = [];
          user_sid = nfs.user_sid;
          logon_id = [];
          client_addr = nfs.client_ip;
          protocol = cee_protocol_name r.protocol;
          server = elim (decode_base64_utf16 nfs.server_name) [ none ↦ [] | some server ↦ server ];
          timestamp = onefs_timestamp nfs.time_stamp nfs.time_stamp_micro_seconds receive_time;
          bytes_read = parse_int64 nfs.bytes_read;
          bytes_written = parse_int64 nfs.bytes_written;
          number_of_reads = parse_int64 nfs.number_of_reads;
          number_of_writes = parse_int64 nfs.number_of_writes;
        }
        ∷ [])
  ]

  unfoldable pub parse_one_fs_event_decoded : Bytes → Time → Option (List CepaEvent)
  parse_one_fs_event_decoded decoded receive_time = elim (lib.unmarshal_one_fs decoded) [
    | none ↦ none
    | some r ↦ elim (r.nfs) [ none ↦ none | some nfs ↦ one_fs_events r nfs receive_time ]
  ]

  -- ParseOneFSEvent
  unfoldable pub parse_one_fs_event : Bytes → Time → Option (List CepaEvent)
  parse_one_fs_event body receive_time = elim (decode_body body) [
    | none ↦ none
    | some decoded ↦ parse_one_fs_event_decoded decoded receive_time
  ]
