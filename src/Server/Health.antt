-- ===== src/Server/Health.antt =====
-- pkg/server/health.go: GET /health. Times are those of the clock at the request: the time since
-- the start and until an expiry, in nanoseconds; the float64 arithmetic on them is taken as exact.
-- encoding/json, encoding/pem and crypto/x509 are not modelled.
pub mod Expiry
use cee_exporter.Common.{
  ℕ, ◌/◌, ◌*◌, ◌^◌, Bool, true, false, not, ◌||◌, Option, none, some, List, [], ◌∷◌, ltb,
  if◌then◌else◌, Bytes, codes, bytes_eq, ℤ, pos, negsuc, floor_div, is_positive,
}
use cee_exporter.Parser.CheckEvent.Number.{is_empty}
use cee_exporter.Metrics.{Store}
use cee_exporter.Metrics.Snapshot.{Snapshot, snapshot}

pub record HealthConfig : Type 0 where
  pub writer_type : Bytes
  pub writer_addr : Bytes
  pub tls_enabled : Bool
  pub tls_cert_file : Bytes

pub record PemBlock : Type 0 where
  pub type : Bytes
  pub bytes : Bytes

-- os.ReadFile with the blocks that repeated calls of pem.Decode find in the file, ParseCertificate,
-- time.Until of the expiry, and the printed times.
pub record Certificates (C : Type 0) : Type 0 where
  pub read_blocks : Bytes → Option (List PemBlock)
  pub parse_certificate : Bytes → Option C
  pub until_expiry : C → ℤ
  pub format_expiry : C → Bytes

pub record WriterInfo : Type 0 where
  pub type : Bytes
  pub target : Bytes
  pub healthy : Bool

pub record TlsInfo : Type 0 where
  pub enabled : Bool
  pub cert_expiry : Bytes
  pub days_remaining : Option ℤ

pub record HealthResponse : Type 0 where
  pub status : Bytes
  pub uptime_seconds : ℕ
  pub queue_depth : ℤ
  pub events_received_total : ℤ
  pub events_written_total : ℤ
  pub events_dropped_total : ℤ
  pub last_event_at : Bytes
  pub writer : WriterInfo
  pub tls : TlsInfo

abbrev pub day : ℕ
day = 24 * 60 * 60 * 10 ^ 9

abbrev pub below_thirty : ℤ → Bool
below_thirty (pos n) = ltb n 30
below_thirty (negsuc n) = true

module _ {C : Type 0} (lib : Certificates C) where
  -- The loop over the blocks of a file.
  unfoldable pub first_certificate : List PemBlock → Option C
  first_certificate [] = none
  first_certificate (b ∷ bs) =
      let later = first_certificate bs in
      if not (bytes_eq b.type (codes "CERTIFICATE"))
      then later
      else elim (lib.parse_certificate b.bytes) [ none ↦ later | some c ↦ some c ]

  unfoldable pub load_first_cert : Bytes → Option C
  load_first_cert path = elim (lib.read_blocks path) [
    | none ↦ none
    | some blocks ↦ first_certificate blocks
  ]

  -- What is reported of a certificate, and whether its expiry is logged as soon.
  unfoldable pub tls_info_of : Bool → Option C → TlsInfo × Bool
  tls_info_of enabled none =
      (record { enabled = enabled; cert_expiry = []; days_remaining = none }, false)
  tls_info_of enabled (some c) =
      let days = floor_div (lib.until_expiry c) day in
      (
        record { enabled = enabled; cert_expiry = lib.format_expiry c; days_remaining = some days },
        below_thirty days,
      )

  unfoldable pub build_tls_info : HealthConfig → TlsInfo × Bool
  build_tls_info cfg =
      if not cfg.tls_enabled || is_empty cfg.tls_cert_file
      then tls_info_of cfg.tls_enabled none
      else tls_info_of cfg.tls_enabled (load_first_cert cfg.tls_cert_file)

  -- `format_time` prints the time of the last event; `since_start` is time.Since(cfg.StartTime).
  unfoldable pub build_health_response : (ℕ → Bytes) → ℕ → HealthConfig → Snapshot → HealthResponse
  build_health_response format_time since_start cfg snap = record {
    status = if is_positive snap.events_dropped_total then codes "degraded" else codes "ok";
    uptime_seconds = since_start / 10 ^ 9;
    queue_depth = snap.queue_depth;
    events_received_total = snap.events_received_total;
    events_written_total = snap.events_written_total;
    events_dropped_total = snap.events_dropped_total;
    last_event_at = elim (snap.last_event_at) [ none ↦ [] | some t ↦ format_time t ];
    writer = record { type = cfg.writer_type; target = cfg.writer_addr; healthy = true };
    tls = (build_tls_info cfg).0;
  }

  -- HealthHandler.ServeHTTP: the status code and the body, if it is a JSON document.
  unfoldable pub serve_health :
      (ℕ → Bytes) → ℕ → HealthConfig → Bytes → Store → ℕ × Option HealthResponse
  serve_health format_time since_start cfg method s =
      if not (bytes_eq method (codes "GET"))
      then (405, none)
      else (200, some (build_health_response format_time since_start cfg (snapshot s)))
