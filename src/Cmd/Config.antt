-- ===== src/Cmd/Config.antt =====
-- The configuration of cmd/cee-exporter/main.go with its defaults, and the level of the log
-- (pkg/log/log.go).
use cee_exporter.Common.{
  ℕ, ◌-◌, ◌*◌, ◌%◌, ◌^◌, Bool, true, false, [], ◌||◌, if◌then◌else◌, Bytes, codes, bytes_eq, ℤ, pos,
  negsuc,
}
use cee_exporter.Parser.CheckEvent.{is_empty, to_lower}
use cee_exporter.Metrics.Snapshot.{to_int64}
use cee_exporter.Queue
use cee_exporter.Server.{LimitsConfig}
use cee_exporter.Server.Register.{RegistrationConfig}
use cee_exporter.Cmd.{ListenConfig, OutputConfig}

pub record QueueConfig : Type 0 where
  pub capacity : ℤ
  pub workers : ℤ
  pub drain_timeout_s : ℤ
  pub max_batch : ℤ
  pub batch_timeout_ms : ℤ

pub record LoggingConfig : Type 0 where
  pub level : Bytes
  pub format : Bytes

pub record MetricsConfig : Type 0 where
  pub enabled : Bool
  pub addr : Bytes

pub record Config : Type 0 where
  pub listen : ListenConfig
  pub output : OutputConfig
  pub queue : QueueConfig
  pub logging : LoggingConfig
  pub metrics : MetricsConfig
  pub cepa : RegistrationConfig
  pub server : LimitsConfig
  pub hostname : Bytes

-- A field that the literal leaves out is its zero value.
unfoldable pub default_config : Config
default_config = record {
  listen = record {
    addr = codes "0.0.0.0:12228";
    tls = false;
    cert_file = [];
    key_file = [];
    tls_mode = [];
    acme_domains = [];
    acme_email = [];
    acme_cache_dir = [];
    acme_challenge_addr = [];
  };
  output = record {
    type = codes "gelf";
    targets = [];
    evtx_path = [];
    gelf_host = codes "localhost";
    gelf_port = pos 12201;
    gelf_protocol = codes "udp";
    gelf_tls = false;
    syslog_host = [];
    syslog_port = pos 0;
    syslog_protocol = [];
    syslog_app_name = [];
    beats_host = [];
    beats_port = pos 0;
    beats_tls = false;
    flush_interval_sec = pos 15;
    max_file_size_mb = pos 100;
    max_file_count = pos 100;
    rotation_interval_h = pos 24;
  };
  queue = record {
    capacity = pos 100000;
    workers = pos 4;
    drain_timeout_s = pos 30;
    max_batch = pos 500;
    batch_timeout_ms = pos 200;
  };
  logging = record { level = codes "info"; format = codes "json" };
  metrics = record { enabled = true; addr = codes "0.0.0.0:9228" };
  cepa = record {
    friendly_name = [];
    guid = [];
    description = [];
    protocols = [];
    event_filter = [];
    version = [];
  };
  server = record { max_body_mb = pos 8; max_concurrent_requests = pos 8 };
  hostname = [];
}

-- slog.Level
pub data Level : Type 0 where
  debug info warn error : Level

-- applog.Init: the level, and whether the format is JSON.
unfoldable pub level_of : Bytes → Level
level_of level =
    if bytes_eq (to_lower level) (codes "debug")
    then debug
    else if bytes_eq (to_lower level) (codes "warn") || bytes_eq (to_lower level) (codes "warning")
    then warn
    else if bytes_eq (to_lower level) (codes "error")
    then error
    else info

unfoldable pub is_json : Bytes → Bool
is_json format = bytes_eq (to_lower format) (codes "json")

-- An environment variable in place of a setting.
unfoldable pub override : Bytes → Bytes → Bytes
override variable setting = if is_empty variable then setting else variable

-- A product of an int by a time.Duration, which wraps.
abbrev bits : ℤ → ℕ
bits (pos n) = n % 2 ^ 64
bits (negsuc n) = 2 ^ 64 - 1 - n % 2 ^ 64

unfoldable pub duration : ℤ → ℕ → ℤ
duration n unit = to_int64 ((bits n * unit) % 2 ^ 64)

-- The literal of type queue.Config.
unfoldable pub queue_config : QueueConfig → Queue.Config
queue_config c = record {
  capacity = c.capacity;
  workers = c.workers;
  drain_timeout = duration c.drain_timeout_s (10 ^ 9);
  max_batch = c.max_batch;
  batch_timeout = duration c.batch_timeout_ms (10 ^ 6);
}
