-- ===== src/Cmd.antt =====
-- cmd/cee-exporter: the configuration's checks and the choice of the writer. The constructors of
-- the writers and net.JoinHostPort are parameters.
pub mod Build
pub mod Config
pub mod Tls
pub mod Tested
pub mod Service
pub mod Signals
pub mod Startup
use cee_exporter.Common.{
  ℕ, zero, suc, Bool, true, false, not, ◌&&◌, ◌||◌, Option, none, some, List, [], ◌∷◌, ◌++◌,
  if◌then◌else◌, is_negative, is_zero, Bytes, codes, bytes_eq, ℤ, pos, negsuc,
}
use cee_exporter.Parser.CheckEvent.Number.{is_empty}
use cee_exporter.Parser.Event.{Time}
use cee_exporter.Mapper.{WindowsEvent, provider_name}

pub record ListenConfig : Type 0 where
  pub addr : Bytes
  pub tls : Bool
  pub cert_file : Bytes
  pub key_file : Bytes
  pub tls_mode : Bytes
  pub acme_domains : List Bytes
  pub acme_email : Bytes
  pub acme_cache_dir : Bytes
  pub acme_challenge_addr : Bytes

unfoldable pub migrate_listen_config : ListenConfig → ListenConfig
migrate_listen_config cfg =
    if not (is_empty cfg.tls_mode)
    then cfg
    else if cfg.tls && not (is_empty cfg.cert_file)
    then record cfg { tls_mode = codes "manual" }
    else record cfg { tls_mode = codes "off" }

pub record OutputConfig : Type 0 where
  pub type : Bytes
  pub targets : List Bytes
  pub evtx_path : Bytes
  pub gelf_host : Bytes
  pub gelf_port : ℤ
  pub gelf_protocol : Bytes
  pub gelf_tls : Bool
  pub syslog_host : Bytes
  pub syslog_port : ℤ
  pub syslog_protocol : Bytes
  pub syslog_app_name : Bytes
  pub beats_host : Bytes
  pub beats_port : ℤ
  pub beats_tls : Bool
  pub flush_interval_sec : ℤ
  pub max_file_size_mb : ℤ
  pub max_file_count : ℤ
  pub rotation_interval_h : ℤ

-- validateOutputConfig: `false` is an error.
unfoldable pub validate_output_config : OutputConfig → Bool
validate_output_config cfg =
    if bytes_eq cfg.type (codes "evtx")
    then if is_empty cfg.evtx_path
      then false
      else if is_zero cfg.flush_interval_sec
      then false
      else if is_negative cfg.flush_interval_sec
      then false
      else if is_negative cfg.max_file_size_mb
      then false
      else if is_negative cfg.max_file_count
      then false
      else not (is_negative cfg.rotation_interval_h)
    else true

-- The writers that main can construct, by their configuration; `none` is an error.
pub record Constructors (W : Type 0) : Type 0 where
  pub new_gelf_writer : OutputConfig → Option W
  pub new_native_evtx_writer : OutputConfig → Option W
  pub new_syslog_writer : OutputConfig → Option W
  pub new_beats_writer : OutputConfig → Option W
  pub new_multi_writer : List W → W
  pub join_host_port : Bytes → ℤ → Bytes
  -- fmt.Sprintf("%v", addrs)
  pub show_addrs : List Bytes → Bytes

-- How a call of buildWriter ends: the writer with its address, an error, or not within the depth of
-- calls.
pub data Built (W : Type 0) : Type 0 where
  built : W → Bytes → Built W
  refused : Built W
  too_deep : Built W

module _ {W : Type 0} (new : Constructors W) where
  unfoldable pub with_addr : Bytes → Option W → Built W
  with_addr addr none = refused
  with_addr addr (some w) = built w addr

  -- The writers and addresses of the targets; the first error ends the loop.
  unfoldable pub build_targets :
      (OutputConfig → Built W) → OutputConfig → List Bytes → List W → List Bytes → Built W
  build_targets sub cfg [] writers addrs =
      built (new.new_multi_writer writers) (new.show_addrs addrs)
  build_targets sub cfg (t ∷ ts) writers addrs = elim (sub (record cfg { type = t })) [
    | built w addr ↦ build_targets sub cfg ts (writers ++ w ∷ []) (addrs ++ addr ∷ [])
    | refused ↦ refused
    | too_deep ↦ too_deep
  ]

  -- buildWriter, with a bound on the depth of the calls.
  unfoldable pub build_writer : ℕ → OutputConfig → Built W
  build_writer zero cfg = too_deep
  build_writer (suc depth) cfg =
      let targets = build_targets (build_writer depth) cfg cfg.targets [] [] in
      if bytes_eq cfg.type (codes "gelf")
      then with_addr (new.join_host_port cfg.gelf_host cfg.gelf_port) (new.new_gelf_writer cfg)
      else if bytes_eq cfg.type (codes "evtx")
      then with_addr cfg.evtx_path (new.new_native_evtx_writer cfg)
      else if bytes_eq cfg.type (codes "multi")
      then targets
      else if bytes_eq cfg.type (codes "syslog")
      then with_addr (new.join_host_port cfg.syslog_host cfg.syslog_port)
          (new.new_syslog_writer cfg)
      else if bytes_eq cfg.type (codes "beats")
      then with_addr (new.join_host_port cfg.beats_host cfg.beats_port) (new.new_beats_writer cfg)
      else refused

-- parseCfgPath
unfoldable pub parse_cfg_path : List Bytes → Bytes
parse_cfg_path [] = codes "config.toml"
parse_cfg_path (a ∷ []) = codes "config.toml"
parse_cfg_path (a ∷ b ∷ rest) =
    let later = parse_cfg_path (b ∷ rest) in
    if bytes_eq a (codes "-config") || bytes_eq a (codes "--config") then b else later

-- emitExitCode, with whether each call succeeded.
unfoldable pub emit_exit_code : Bool → Bool → ℕ
emit_exit_code emitted closed = if not emitted || not closed then 1 else 0

-- The event of emitTestEvents with this ID.
unfoldable pub test_event : Bytes → Time → ℕ → WindowsEvent
test_event hostname now id = record {
  event_id = id;
  provider_name = provider_name;
  computer = hostname;
  channel = [];
  time_created = now;
  subject_user_sid = [];
  subject_username = codes "test-user";
  subject_domain = codes "TEST";
  subject_logon_id = [];
  object_type = codes "File";
  object_name = codes "C:\\test\\emit-test-events.txt";
  access_mask = codes "0x1";
  accesses = codes "ReadData";
  process_id = 0;
  handle_id = [];
  client_addr = codes "127.0.0.1";
  bytes_read = pos 0;
  bytes_written = pos 0;
  number_of_reads = pos 0;
  number_of_writes = pos 0;
  cepa_event_type = codes "TEST_EVENT";
}

-- The loop of emitTestEvents stops at the first failure.
unfoldable pub emit_events :
    {S : Type 0} → (WindowsEvent → S → S × Bool) → Bytes → Time → List ℕ → S → S × Bool
emit_events write hostname now [] s = (s, true)
emit_events write hostname now (id ∷ ids) s =
    let (s1, ok) = write (test_event hostname now id) s in
    let rest = emit_events write hostname now ids s1 in if ok then rest else (s1, false)

-- The event IDs that emitTestEvents writes.
abbrev pub test_ids : List ℕ
test_ids = 4660 ∷ 4663 ∷ 4670 ∷ []

unfoldable pub emit_test_events :
    {S : Type 0} → (WindowsEvent → S → S × Bool) → Bytes → Time → S → S × Bool
emit_test_events write hostname now s = emit_events write hostname now test_ids s
