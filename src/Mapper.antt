-- ===== src/Mapper.antt =====
-- pkg/mapper/mapper.go: a CEPA event as a Windows audit event, and WindowsEvent of
-- pkg/evtx/writer.go.
pub mod Tables
pub mod Audit
use cee_exporter.Common.{
  ℕ, zero, suc, ◌+◌, ◌-◌, ◌*◌, ◌%◌, Bool, true, false, Option, none, some, List, [], ◌∷◌, ◌++◌,
  ◌==◌, if◌then◌else◌, Bytes, codes, ℤ, pos, negsuc,
}
use cee_exporter.Common.Assoc.{Key, bytes_key, Assoc, lookup}
use cee_exporter.Parser.Text.{format_uint}
use cee_exporter.Parser.Event.{CepaEvent, Time}
use cee_exporter.Parser.CheckEvent.Number.{is_empty}

pub record WindowsEvent : Type 0 where
  pub event_id : ℕ
  pub provider_name : Bytes
  pub computer : Bytes
  pub channel : Bytes
  pub time_created : Time
  pub subject_user_sid : Bytes
  pub subject_username : Bytes
  pub subject_domain : Bytes
  pub subject_logon_id : Bytes
  pub object_type : Bytes
  pub object_name : Bytes
  pub access_mask : Bytes
  pub accesses : Bytes
  pub process_id : ℕ
  pub handle_id : Bytes
  pub client_addr : Bytes
  pub bytes_read : ℤ
  pub bytes_written : ℤ
  pub number_of_reads : ℤ
  pub number_of_writes : ℤ
  pub cepa_event_type : Bytes

unfoldable pub cepa_to_event_id : Assoc Bytes ℕ
cepa_to_event_id =
    (codes "CEPP_CREATE_FILE", 4663)
    ∷ (codes "CEPP_CREATE_DIRECTORY", 4663)
    ∷ (codes "CEPP_FILE_READ", 4663)
    ∷ (codes "CEPP_FILE_READ_DIR", 4663)
    ∷ (codes "CEPP_FILE_WRITE", 4663)
    ∷ (codes "CEPP_CLOSE_MODIFIED", 4663)
    ∷ (codes "CEPP_CLOSE_UNMODIFIED", 4658)
    ∷ (codes "CEPP_RENAME_FILE", 4663)
    ∷ (codes "CEPP_RENAME_DIRECTORY", 4663)
    ∷ (codes "CEPP_DELETE_FILE", 4660)
    ∷ (codes "CEPP_DELETE_DIRECTORY", 4660)
    ∷ (codes "CEPP_SETACL_FILE", 4670)
    ∷ (codes "CEPP_SETACL_DIRECTORY", 4670)
    ∷ (codes "CEPP_OPEN_FILE_NOACCESS", 4663)
    ∷ (codes "CEPP_OPEN_FILE_READ", 4663)
    ∷ (codes "CEPP_OPEN_FILE_WRITE", 4663)
    ∷ (codes "CEPP_OPEN_DIRECTORY", 4663)
    ∷ (codes "CEPP_CLOSE_DIRECTORY", 4658)
    ∷ (codes "CEPP_SETSEC_FILE", 4670)
    ∷ (codes "CEPP_SETSEC_DIRECTORY", 4670)
    ∷ []

unfoldable pub access_mask_for : Assoc Bytes Bytes
access_mask_for =
    (codes "CEPP_FILE_READ", codes "0x1")
    ∷ (codes "CEPP_FILE_READ_DIR", codes "0x1")
    ∷ (codes "CEPP_CREATE_FILE", codes "0x2")
    ∷ (codes "CEPP_CREATE_DIRECTORY", codes "0x4")
    ∷ (codes "CEPP_FILE_WRITE", codes "0x2")
    ∷ (codes "CEPP_CLOSE_MODIFIED", codes "0x2")
    ∷ (codes "CEPP_CLOSE_UNMODIFIED", codes "0x0")
    ∷ (codes "CEPP_RENAME_FILE", codes "0x2")
    ∷ (codes "CEPP_RENAME_DIRECTORY", codes "0x2")
    ∷ (codes "CEPP_DELETE_FILE", codes "0x10000")
    ∷ (codes "CEPP_DELETE_DIRECTORY", codes "0x10000")
    ∷ (codes "CEPP_SETACL_FILE", codes "0x40000")
    ∷ (codes "CEPP_SETACL_DIRECTORY", codes "0x40000")
    ∷ (codes "CEPP_OPEN_FILE_NOACCESS", codes "0x0")
    ∷ (codes "CEPP_OPEN_FILE_READ", codes "0x1")
    ∷ (codes "CEPP_OPEN_FILE_WRITE", codes "0x2")
    ∷ (codes "CEPP_OPEN_DIRECTORY", codes "0x1")
    ∷ (codes "CEPP_CLOSE_DIRECTORY", codes "0x0")
    ∷ (codes "CEPP_SETSEC_FILE", codes "0x80000")
    ∷ (codes "CEPP_SETSEC_DIRECTORY", codes "0x80000")
    ∷ []

unfoldable pub access_desc_for : Assoc Bytes Bytes
access_desc_for =
    (codes "CEPP_FILE_READ", codes "ReadData (or ListDirectory)")
    ∷ (codes "CEPP_FILE_READ_DIR", codes "ReadData (or ListDirectory)")
    ∷ (codes "CEPP_CREATE_FILE", codes "WriteData (or AddFile)")
    ∷ (codes "CEPP_CREATE_DIRECTORY", codes "AppendData (or AddSubdirectory)")
    ∷ (codes "CEPP_FILE_WRITE", codes "WriteData (or AddFile)")
    ∷ (codes "CEPP_CLOSE_MODIFIED", codes "WriteData (or AddFile)")
    ∷ (codes "CEPP_CLOSE_UNMODIFIED", codes "CloseHandle")
    ∷ (codes "CEPP_RENAME_FILE", codes "WriteData (or AddFile)")
    ∷ (codes "CEPP_RENAME_DIRECTORY", codes "WriteData (or AddFile)")
    ∷ (codes "CEPP_DELETE_FILE", codes "DELETE")
    ∷ (codes "CEPP_DELETE_DIRECTORY", codes "DELETE")
    ∷ (codes "CEPP_SETACL_FILE", codes "WRITE_DAC")
    ∷ (codes "CEPP_SETACL_DIRECTORY", codes "WRITE_DAC")
    ∷ (codes "CEPP_OPEN_FILE_NOACCESS", codes "(no access requested)")
    ∷ (codes "CEPP_OPEN_FILE_READ", codes "ReadData (or ListDirectory)")
    ∷ (codes "CEPP_OPEN_FILE_WRITE", codes "WriteData (or AddFile)")
    ∷ (codes "CEPP_OPEN_DIRECTORY", codes "ReadData (or ListDirectory)")
    ∷ (codes "CEPP_CLOSE_DIRECTORY", codes "CloseHandle")
    ∷ (codes "CEPP_SETSEC_FILE", codes "WRITE_OWNER")
    ∷ (codes "CEPP_SETSEC_DIRECTORY", codes "WRITE_OWNER")
    ∷ []

-- A missing key of a map of strings reads as the empty string, for which a default stands.
unfoldable pub entry_or : Bytes → Assoc Bytes Bytes → Bytes → Bytes
entry_or k m fallback = elim (lookup k m) [
  | none ↦ fallback
  | some v ↦ if is_empty v then fallback else v
]

-- objectType
unfoldable pub object_type_of : Bytes → Bytes
object_type_of [] = codes "File"
object_type_of (c ∷ []) = if c == b'/' then codes "Directory" else codes "File"
object_type_of (c ∷ d ∷ s) = object_type_of (d ∷ s)

-- UnixNano() & 0xfff of a 64-bit two's complement number.
unfoldable pub low_bits : Time → ℕ
low_bits t = elim (t.sec) [
  | pos n ↦ (n * 1000000000 + t.nsec) % 4096
  | negsuc n ↦ ((4095 - n % 4096) * 1000000000 + t.nsec) % 4096
]

-- evtx.DefaultProviderName
unfoldable pub provider_name : Bytes
provider_name = codes "PowerStore-CEPA"

-- Map, with what os.Hostname() returns.
unfoldable pub map_event : Bytes → CepaEvent → Bytes → WindowsEvent
map_event os_hostname e hostname = record {
  event_id = elim (lookup e.event_type cepa_to_event_id) [ none ↦ 4663 | some id ↦ id ];
  provider_name = provider_name;
  computer = if is_empty hostname then os_hostname else hostname;
  channel = codes "Security";
  time_created = e.timestamp;
  subject_user_sid = e.user_sid;
  subject_username = e.username;
  subject_domain = e.domain;
  subject_logon_id = e.logon_id;
  object_type = object_type_of e.file_path;
  object_name = e.file_path;
  access_mask = entry_or e.event_type access_mask_for (codes "0x0");
  accesses = entry_or e.event_type access_desc_for e.event_type;
  process_id = 4;
  handle_id = codes "0x" ++ format_uint 16 (low_bits e.timestamp);
  client_addr = e.client_addr;
  bytes_read = e.bytes_read;
  bytes_written = e.bytes_written;
  number_of_reads = e.number_of_reads;
  number_of_writes = e.number_of_writes;
  cepa_event_type = e.event_type;
}
