-- ===== src/Tests/Startups.antt =====
-- cmd/cee-exporter and GET /health at small inputs.
use cee_exporter.Common.{
  ℕ, sym, ap, Bool, not, ◌≡◌, refl, true, false, Option, none, some, List, [], ◌∷◌, Bytes, codes,
  bytes_eq, pos, negsuc, ℤ,
}
use cee_exporter.Parser.CheckEvent.{is_empty}
use cee_exporter.Server.Health.{
  HealthConfig, PemBlock, Certificates, build_tls_info, tls_info_of, load_first_cert,
  first_certificate,
}
use cee_exporter.Server.Health.Expiry.{IsFirst, Reports, build_tls_info-Reports}
use cee_exporter.Common.Assoc.{lookup}
use cee_exporter.Parser.Event.{CepaEvent}
use cee_exporter.Mapper.{map_event, cepa_to_event_id}
use cee_exporter.Cmd.Tested.{member, is_close, map_event-tested}
use cee_exporter.Cmd.{test_ids}
use cee_exporter.Cmd.Tls.{TlsLibrary, TlsConfig, config_of, build_self_signed_tls}
use cee_exporter.Cmd.Service.{ServiceManager, ServiceConfig, run_with_service_manager, ended}
use cee_exporter.Cmd.Service.Boot.{registered, installed_runs}
use cee_exporter.Writers.Win32.{
  EventLog, win32_source_name, ensure_event_source, ensure_registered, install_after,
}
use cee_exporter.Writers.Win32.Registration.{ensure_event_source-settles}
use cee_exporter.Cmd.Startup.{System, missing, run}

-- A key, then a broken certificate, then one that expired an hour ago.
abbrev blocks : List PemBlock
blocks =
    record { type = codes "PRIVATE KEY"; bytes = [] }
    ∷ record { type = codes "CERTIFICATE"; bytes = [] }
    ∷ record { type = codes "CERTIFICATE"; bytes = 1 ∷ [] }
    ∷ []

-- A certificate is parsed from one byte.
abbrev parse_byte : Bytes → Option ℕ
parse_byte [] = none
parse_byte (c ∷ s) = some c

abbrev hour_ago : ℤ
hour_ago = negsuc 3599999999999

abbrev certificates : Certificates ℕ
certificates = record {
  read_blocks = λ path. some blocks;
  parse_certificate = parse_byte;
  until_expiry = λ c. hour_ago;
  format_expiry = λ c. codes "2026-08-11";
}

abbrev health : HealthConfig
health = record {
  writer_type = codes "gelf";
  writer_addr = codes "localhost:12201";
  tls_enabled = true;
  tls_cert_file = codes "cert.pem";
}

file_named : is_empty health.tls_cert_file ≡ false
unfolding is_empty codes
file_named = refl

-- an expired certificate is on day -1, and logged
expired :
    ((build_tls_info certificates health).0.days_remaining ≡ some (negsuc 0))
    × ((build_tls_info certificates health).1 ≡ true)
unfolding build_tls_info is_empty codes load_first_cert first_certificate bytes_eq tls_info_of
expired = (refl, refl)

build_tls_info-Reports_example :
    (o : Option ℕ) × IsFirst certificates blocks o
    × Reports certificates o (build_tls_info certificates health)
build_tls_info-Reports_example =
    build_tls_info-Reports certificates health blocks refl file_named refl

-- Every call of the TLS libraries succeeds, and a file or a block holds its name.
abbrev library : TlsLibrary
library = record {
  load_x509_key_pair = λ cert key. some cert;
  generate_key = some (7 ∷ []);
  marshal_ec_private_key = λ key. some key;
  create_certificate = λ t key. some (0 ∷ key);
  encode_to_memory = λ type bytes. bytes;
  x509_key_pair = λ cert key. some cert;
  listens = λ addr. true;
  now = 1000000000000000000;
}

-- Writers are named by their type, and every call succeeds.
abbrev system : System Bytes (List ℕ)
system = record {
  new = record {
    new_gelf_writer = λ cfg. some cfg.type;
    new_native_evtx_writer = λ cfg. some cfg.type;
    new_syslog_writer = λ cfg. some cfg.type;
    new_beats_writer = λ cfg. some cfg.type;
    new_multi_writer = λ ws. codes "multi";
    join_host_port = λ host port. host;
    show_addrs = λ addrs. [];
  };
  decode_file = λ path cfg. missing;
  log_level = [];
  log_format = [];
  os_hostname = codes "nas";
  tls = library;
  now = record { sec = pos 1; nsec = 0 };
  write_event = λ w e ids. (e.event_id ∷ ids, true);
  close = λ w ids. (ids, true);
}

-- A service manager whose world is the configuration that is registered.
abbrev manager : ServiceManager (Option ServiceConfig)
manager = record {
  new = λ c. true;
  install = λ c s. (some c, true);
  uninstall = λ c s. (none, true);
  run = λ c s. (s, true);
}

abbrev install_args : List Bytes
install_args = codes "-config" ∷ codes "a.toml" ∷ []

installed_runs_example :
    (run_with_service_manager manager (codes "a.exe" ∷ codes "install" ∷ install_args) none
      ≡ ended (manager.install (registered install_args) none))
    × ((t : Option ServiceConfig)
        → run_with_service_manager manager (codes "a.exe" ∷ (registered install_args).arguments) t
          ≡ ended (manager.run (registered install_args) t))
installed_runs_example = installed_runs manager (codes "a.exe") install_args none refl

-- A certificate for localhost.
abbrev signed : TlsConfig
signed = config_of library (0 ∷ 7 ∷ [])

built : build_self_signed_tls library [] ≡ some signed
unfolding build_self_signed_tls
built = refl

-- A registry whose world is the file of the source.
abbrev registry : EventLog (Option Bytes)
registry = record {
  registered = λ s. s;
  remove = λ name s. (none, true);
  install = λ name file s. (some file, true);
  open_log = λ name s. (s, true);
  info = λ id message s. (s, true);
  close = λ s. (s, true);
}

abbrev registers :
    (file : Bytes) (s s' : Option Bytes)
    → registry.install win32_source_name file s ≡ (s', true)
    → registry.registered s' ≡ some file
registers file s s' e = sym (ap (λ (q : Option Bytes × Bool). q.0) e)

moved :
    ensure_event_source registry (codes "new.exe") (some (codes "old.exe"))
    ≡ (some (codes "new.exe"), true)
unfolding ensure_event_source ensure_registered install_after codes bytes_eq
moved = refl

ensure_event_source-settles_example :
    (registry.registered (some (codes "new.exe")) ≡ some (codes "new.exe"))
    × (ensure_event_source registry (codes "new.exe") (some (codes "new.exe"))
        ≡ (some (codes "new.exe"), true))
ensure_event_source-settles_example =
    ensure_event_source-settles registry registers (codes "new.exe") (some (codes "old.exe"))
      (some (codes "new.exe")) moved

abbrev closing : CepaEvent
closing = record {
  event_type = codes "CEPP_CLOSE_UNMODIFIED";
  file_path = codes "/ifs/a";
  username = [];
  domain = [];
  user_sid = [];
  logon_id = [];
  client_addr = [];
  protocol = [];
  server = [];
  timestamp = record { sec = pos 1; nsec = 0 };
  bytes_read = pos 0;
  bytes_written = pos 0;
  number_of_reads = pos 0;
  number_of_writes = pos 0;
}

map_event-tested_example :
    member (map_event (codes "nas") closing []).event_id test_ids
    ≡ not (is_close closing.event_type)
map_event-tested_example = map_event-tested (codes "nas") closing []

-- a close has the ID 4658, and no test event has
close_is_untested :
    ((map_event (codes "nas") closing []).event_id ≡ 4658) × (member 4658 test_ids ≡ false)
unfolding map_event lookup bytes_eq codes cepa_to_event_id member
close_is_untested = (refl, refl)
