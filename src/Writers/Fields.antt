-- ===== src/Writers/Fields.antt =====
-- The map of fields that pkg/evtx/writer_evtx_notwindows.go hands to go-evtx, and the operations of
-- BinaryEvtxWriter on it. time.Format and go-evtx are arguments.
pub mod Bound
use cee_exporter.Common.{
  ℕ, Bool, true, false, ◌||◌, Option, none, some, List, [], ◌∷◌, if◌then◌else◌, Bytes, codes, add64,
}
use cee_exporter.Parser.Event.{Time}
use cee_exporter.Parser.Text.{format_uint}
use cee_exporter.Parser.CheckEvent.{is_empty}
use cee_exporter.Mapper.{WindowsEvent}
use cee_exporter.Metrics.{Store}
use cee_exporter.Writers.{EvtxWriter}
use cee_exporter.Writers.Budget.{Fields, truncate_field, enforce_encoded_budget}

unfoldable pub default_provider_name : Bytes
default_provider_name = codes "PowerStore-CEPA"

unfoldable pub default_channel : Bytes
default_channel = codes "Security"

unfoldable pub level_information : Bytes
level_information = codes "4"

unfoldable pub keywords_classic : Bytes
keywords_classic = codes "0x80000000000000"

-- A default for an empty value.
unfoldable pub default_to : Bytes → Bytes → Bytes
default_to value default = if is_empty value then default else value

-- The values that are clipped.
unfoldable pub clipped_values : WindowsEvent → List Bytes
clipped_values e =
    default_to e.provider_name default_provider_name
    ∷ default_to e.channel default_channel
    ∷ e.computer
    ∷ e.subject_user_sid
    ∷ e.subject_username
    ∷ e.subject_domain
    ∷ e.subject_logon_id
    ∷ e.object_type
    ∷ e.object_name
    ∷ e.handle_id
    ∷ e.accesses
    ∷ e.access_mask
    ∷ e.client_addr
    ∷ []

abbrev pub clip : Bytes → Bytes
clip s = (truncate_field s).0

-- The variable `truncated` after the calls of `clip`.
unfoldable pub any_clipped : List Bytes → Bool
any_clipped [] = false
any_clipped (v ∷ vs) = (truncate_field v).1 || any_clipped vs

-- The literal `fields`; `format_time` gives the UTC time in the layout RFC3339Nano.
unfoldable pub event_fields : (Time → Bytes) → WindowsEvent → Fields
event_fields format_time e =
    (codes "ProviderName", clip (default_to e.provider_name default_provider_name))
    ∷ (codes "Channel", clip (default_to e.channel default_channel))
    ∷ (codes "Level", level_information)
    ∷ (codes "Keywords", keywords_classic)
    ∷ (codes "Computer", clip e.computer)
    ∷ (codes "TimeCreated", format_time e.time_created)
    ∷ (codes "SubjectUserSid", clip e.subject_user_sid)
    ∷ (codes "SubjectUserName", clip e.subject_username)
    ∷ (codes "SubjectDomainName", clip e.subject_domain)
    ∷ (codes "SubjectLogonId", clip e.subject_logon_id)
    ∷ (codes "ObjectServer", codes "Security")
    ∷ (codes "ObjectType", clip e.object_type)
    ∷ (codes "ObjectName", clip e.object_name)
    ∷ (codes "HandleId", clip e.handle_id)
    ∷ (codes "AccessList", clip e.accesses)
    ∷ (codes "AccessMask", clip e.access_mask)
    ∷ (codes "ProcessId", format_uint 10 e.process_id)
    ∷ (codes "ProcessName", [])
    ∷ (codes "IpAddress", clip e.client_addr)
    ∷ []

-- metrics.M.EventsTruncatedTotal.Add(1)
abbrev pub count_truncated : Bool → Store → Store
count_truncated truncated m =
    if truncated then record m { events_truncated_total = add64 m.events_truncated_total 1 } else m

-- The fields and the store after windowsEventToFields; `none` is out of fuel. The record of the log
-- is left out.
unfoldable pub windows_event_to_fields :
    (Time → Bytes) → WindowsEvent → Store → Option (Fields × Store)
windows_event_to_fields format_time e m =
    elim (enforce_encoded_budget (event_fields format_time e)) [
      | none ↦ none
      | some (fields, shortened) ↦
          some (fields, count_truncated (any_clipped (clipped_values e) || shortened) m)
    ]

-- NewBinaryEvtxWriter, where `open_file` is goevtx.New at the path and the rotation settings.
unfoldable pub new_binary_evtx_writer :
    {S : Type 0} → (Bytes → Option S) → Bytes → Option (EvtxWriter S)
new_binary_evtx_writer open_file evtx_path =
    if is_empty evtx_path then none else elim (open_file evtx_path) [
      | none ↦ none
      | some file ↦ some (record { closed = false; close_ok = true; file = file })
    ]

-- BinaryEvtxWriter.WriteEvent, where `write` is the WriteRecord of go-evtx.
unfoldable pub evtx_write_event :
    {S : Type 0}
    → (Time → Bytes)
    → (ℕ → Fields → S → S × Bool)
    → WindowsEvent
    → EvtxWriter S × Store
    → Option ((EvtxWriter S × Store) × Bool)
evtx_write_event format_time write e (b, m) = elim (windows_event_to_fields format_time e m) [
  | none ↦ none
  | some (fields, m') ↦
      let (file, ok) = write e.event_id fields b.file in some ((record b { file = file }, m'), ok)
]

-- BinaryEvtxWriter.Rotate
unfoldable pub evtx_rotate : {S : Type 0} → (S → S × Bool) → EvtxWriter S → EvtxWriter S × Bool
evtx_rotate rotate b = let (file, ok) = rotate b.file in (record b { file = file }, ok)
