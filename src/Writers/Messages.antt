-- ===== src/Writers/Messages.antt =====
-- The messages of pkg/evtx/writer_gelf.go, writer_syslog.go, writer_beats.go and writer_windows.go.
-- encoding/json, the RFC 5424 library and time.Format are not modelled.
pub mod Gelf
use cee_exporter.Common.{
  ℕ, ◌+◌, Bool, true, false, Option, none, some, List, [], ◌∷◌, ◌++◌, ltb, leb, ◌==◌, if◌then◌else◌,
  Bytes, codes, length, take, ℤ, pos, negsuc, is_positive,
}
use cee_exporter.Common.Assoc.{Assoc}
use cee_exporter.Parser.Event.{Time}
use cee_exporter.Parser.Text.{format_uint}
use cee_exporter.Mapper.{WindowsEvent}
use cee_exporter.Writers.{short_message}
use cee_exporter.Writers.Fields.{default_provider_name}

-- A JSON value of a message; an instant is written as a number of seconds.
pub data Json : Type 0 where
  text : Bytes → Json
  number : ℤ → Json
  instant : Time → Json

-- A field that is left out unless it is positive.
unfoldable pub when_positive : Bytes → ℤ → Assoc Bytes Json
when_positive key z = if is_positive z then (key, number z) ∷ [] else []

-- `msg[:250]`
unfoldable pub gelf_short_message : WindowsEvent → Bytes
gelf_short_message e =
    let msg = short_message e in if leb (length msg) 250 then msg else take 250 msg

-- The map of buildGELF.
unfoldable pub gelf_fields : WindowsEvent → Assoc Bytes Json
gelf_fields e =
    (codes "version", text (codes "1.1"))
    ∷ (codes "host", text e.computer)
    ∷ (codes "short_message", text (gelf_short_message e))
    ∷ (codes "timestamp", instant e.time_created)
    ∷ (codes "level", number (pos 6))
    ∷ (codes "_event_id", number (pos e.event_id))
    ∷ (codes "_provider", text e.provider_name)
    ∷ (codes "_object_name", text e.object_name)
    ∷ (codes "_object_type", text e.object_type)
    ∷ (codes "_account_name", text e.subject_username)
    ∷ (codes "_account_domain", text e.subject_domain)
    ∷ (codes "_account_sid", text e.subject_user_sid)
    ∷ (codes "_logon_id", text e.subject_logon_id)
    ∷ (codes "_client_address", text e.client_addr)
    ∷ (codes "_access_mask", text e.access_mask)
    ∷ (codes "_accesses", text e.accesses)
    ∷ (codes "_cepa_event_type", text e.cepa_event_type)
    ∷ (when_positive (codes "_bytes_read") e.bytes_read
        ++ when_positive (codes "_bytes_written") e.bytes_written)

-- buildGELF: `encode` is the JSON encoder without the final newline.
unfoldable pub build_gelf : (Assoc Bytes Json → Option Bytes) → WindowsEvent → Option Bytes
build_gelf encode e = encode (gelf_fields e)

-- rfc5424.Message, with the data of its one element; the priority is daemon.info.
pub record SyslogMessage : Type 0 where
  pub timestamp : Time
  pub hostname : Bytes
  pub app_name : Bytes
  pub process_id : Bytes
  pub message_id : Bytes
  pub message : Bytes
  pub sd_id : Bytes
  pub data_of : Assoc Bytes Bytes

unfoldable pub syslog_message : WindowsEvent → Bytes → SyslogMessage
syslog_message e app_name = record {
  timestamp = e.time_created;
  hostname = e.computer;
  app_name = app_name;
  process_id = if e.process_id == 0 then codes "-" else format_uint 10 e.process_id;
  message_id = format_uint 10 e.event_id;
  message = short_message e;
  sd_id = codes "audit@32473";
  data_of =
      (codes "EventID", format_uint 10 e.event_id)
      ∷ (codes "User", e.subject_username)
      ∷ (codes "Domain", e.subject_domain)
      ∷ (codes "Object", e.object_name)
      ∷ (codes "AccessMask", e.access_mask)
      ∷ (codes "ClientAddr", e.client_addr)
      ∷ (codes "CEPAType", e.cepa_event_type)
      ∷ [];
}

-- buildSyslog5424: `marshal` is MarshalBinary.
unfoldable pub build_syslog5424 :
    (SyslogMessage → Option Bytes) → WindowsEvent → Bytes → Option Bytes
build_syslog5424 marshal e app_name = marshal (syslog_message e app_name)

-- buildBeatsEvent; `format_time` gives the UTC time in the layout RFC3339Nano.
unfoldable pub build_beats_event : (Time → Bytes) → WindowsEvent → Assoc Bytes Json
build_beats_event format_time e =
    (codes "@timestamp", text (format_time e.time_created))
    ∷ (codes "message", text (short_message e))
    ∷ (codes "event_id", number (pos e.event_id))
    ∷ (codes "provider", text e.provider_name)
    ∷ (codes "computer", text e.computer)
    ∷ (codes "user", text e.subject_username)
    ∷ (codes "domain", text e.subject_domain)
    ∷ (codes "user_sid", text e.subject_user_sid)
    ∷ (codes "logon_id", text e.subject_logon_id)
    ∷ (codes "object_name", text e.object_name)
    ∷ (codes "object_type", text e.object_type)
    ∷ (codes "access_mask", text e.access_mask)
    ∷ (codes "accesses", text e.accesses)
    ∷ (codes "client_address", text e.client_addr)
    ∷ (codes "cepa_event_type", text e.cepa_event_type)
    ∷ []
