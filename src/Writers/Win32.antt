-- ===== src/Writers/Win32.antt =====
-- pkg/evtx/writer_windows.go: the writer for the Windows event log. The registry and the event log
-- API are a record of operations on a world.
pub mod Registration
use cee_exporter.Common.{
  ℕ, ◌%◌, ◌^◌, ◌+◌, Bool, true, false, Option, none, some, [], ◌∷◌, ◌++◌, if◌then◌else◌, Bytes,
  codes, bytes_eq, ℤ, pos, negsuc,
}
use cee_exporter.Parser.Text.{format_uint}
use cee_exporter.Mapper.{WindowsEvent}
use cee_exporter.Writers.Fields.{default_provider_name}

abbrev pub win32_source_name : Bytes
win32_source_name = default_provider_name

-- registeredMessageFile, eventlog.Remove, Install, Open (a handle), Info and Close.
pub record EventLog (S : Type 0) : Type 0 where
  pub registered : S → Option Bytes
  pub remove : Bytes → S → S × Bool
  pub install : Bytes → Bytes → S → S × Bool
  pub open_log : Bytes → S → S × Bool
  pub info : ℕ → Bytes → S → S × Bool
  pub close : S → S × Bool

module _ {S : Type 0} (api : EventLog S) where
  abbrev install_source : Bytes → S → S × Bool
  install_source exe s = api.install win32_source_name exe s

  unfoldable pub install_after : Bytes → S × Bool → S × Bool
  install_after exe (s, true) = install_source exe s
  install_after exe (s, false) = (s, false)

  -- ensureEventSource, by what is registered.
  unfoldable pub ensure_registered : Bytes → Option Bytes → S → S × Bool
  ensure_registered exe none s = install_source exe s
  ensure_registered exe (some current) s =
      if bytes_eq current exe then (s, true) else install_after exe (api.remove win32_source_name s)

  unfoldable pub ensure_event_source : Bytes → S → S × Bool
  ensure_event_source exe s = ensure_registered exe (api.registered s) s

  -- NewWin32EventLogWriter at the path of the executable, if it is known: a failed registration is
  -- only logged.
  unfoldable pub new_win32_writer : Option Bytes → S → S × Bool
  new_win32_writer none s = (s, false)
  new_win32_writer (some exe) s = api.open_log win32_source_name (ensure_event_source exe s).0

-- %d of an int64
unfoldable pub format_int : ℤ → Bytes
format_int (pos n) = format_uint 10 n
format_int (negsuc n) = b'-' ∷ format_uint 10 (n + 1)

-- A line of a section: a tab, the name, a tab, the value.
unfoldable pub line : Bytes → Bytes → Bytes
line name value = 13 ∷ 10 ∷ 9 ∷ (name ++ b':' ∷ 9 ∷ value)

unfoldable pub section : Bytes → Bytes
section name = 13 ∷ 10 ∷ 13 ∷ 10 ∷ (name ++ b':' ∷ [])

unfoldable pub format_win32_message : WindowsEvent → Bytes
format_win32_message e =
    codes "Subject:"
    ++ line (codes "Security ID") e.subject_user_sid
    ++ line (codes "Account Name") e.subject_username
    ++ line (codes "Account Domain") e.subject_domain
    ++ line (codes "Logon ID") e.subject_logon_id
    ++ section (codes "Object")
    ++ line (codes "Object Server") (codes "Security")
    ++ line (codes "Object Type") e.object_type
    ++ line (codes "Object Name") e.object_name
    ++ section (codes "Process Information")
    ++ line (codes "Process ID") (codes "0x" ++ format_uint 16 e.process_id)
    ++ line (codes "Process Name") (codes "CEPA")
    ++ section (codes "Access Request Information")
    ++ line (codes "Transaction ID") (codes "{00000000-0000-0000-0000-000000000000}")
    ++ line (codes "Accesses") e.accesses
    ++ line (codes "Access Mask") e.access_mask
    ++ section (codes "Network")
    ++ line (codes "Client Address") e.client_addr
    ++ section (codes "I/O Statistics")
    ++ line (codes "Bytes Read") (format_int e.bytes_read)
    ++ line (codes "Bytes Written") (format_int e.bytes_written)

-- Win32EventLogWriter.WriteEvent and Close; the event ID is cut to 32 bits.
unfoldable pub win32_write_event : {S : Type 0} → EventLog S → WindowsEvent → S → S × Bool
win32_write_event api e s = api.info (e.event_id % 2 ^ 32) (format_win32_message e) s

unfoldable pub win32_close : {S : Type 0} → EventLog S → S → S × Bool
win32_close api s = api.close s
