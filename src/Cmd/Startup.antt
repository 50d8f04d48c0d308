-- ===== src/Cmd/Startup.antt =====
-- cmd/cee-exporter: `run` up to the point where it serves (main.go). What the TOML decoder, the
-- environment, the TLS libraries and the network answer is a record.
pub mod Sound
use mathlib.Core.Option
use cee_exporter.Common.{
  ℕ, ◌+◌, ◌-◌, ◌*◌, ◌%◌, ◌^◌, Bool, true, false, not, Option, none, some, List, [], ◌∷◌, ◌||◌,
  if◌then◌else◌, Bytes, codes, bytes_eq, ℤ, pos, negsuc,
}
use cee_exporter.Parser.CheckEvent.{is_empty, to_lower}
use cee_exporter.Parser.Event.{Time}
use cee_exporter.Mapper.{WindowsEvent}
use cee_exporter.Metrics.Snapshot.{to_int64}
use cee_exporter.Queue
use cee_exporter.Server.{LimitsConfig}
use cee_exporter.Server.Register.{RegistrationConfig}
use cee_exporter.Server.Health.{HealthConfig}
use cee_exporter.Cmd.{
  ListenConfig, migrate_listen_config, OutputConfig, validate_output_config, Constructors, Built,
  built, refused, too_deep, build_writer, emit_test_events, emit_exit_code,
}
use cee_exporter.Cmd.Tls.{
  TlsLibrary, Manager, Tls, plain, manual, self_signed, acme, or_else, build_manual_tls,
  build_self_signed_tls, build_autocert_tls, start_acme_challenge_listener,
}
use cee_exporter.Cmd.Config.{
  Config, default_config, Level, level_of, is_json, override, queue_config,
}

-- toml.DecodeFile over the defaults: what it made of them, that there is no such file, or an error.
pub data Decoded : Type 0 where
  decoded : Config → Decoded
  missing : Decoded
  malformed : Decoded

-- What the outside answers; `emit` and `close` are the operations of the writer.
pub record System (W S : Type 0) : Type 0 where
  pub new : Constructors W
  pub decode_file : Bytes → Config → Decoded
  pub log_level : Bytes
  pub log_format : Bytes
  pub os_hostname : Bytes
  pub tls : TlsLibrary
  pub now : Time
  pub write_event : W → WindowsEvent → S → S × Bool
  pub close : W → S → S × Bool

-- What `run` serves with.
pub record Service (W : Type 0) : Type 0 where
  pub config : Config
  pub hostname : Bytes
  pub level : Level
  pub json : Bool
  pub writer : W
  pub queue : Queue.Config
  pub health : HealthConfig
  pub tls : Tls

-- os.Exit with its code, or the service; `diverges` is a call of buildWriter beyond the depth.
pub data Outcome (W : Type 0) : Type 0 where
  exits : ℕ → Outcome W
  serves : Service W → Outcome W
  diverges : Outcome W

module _ {W S : Type 0} (sys : System W S) where
  -- buildAutocertTLS, then startACMEChallengeListener.
  unfoldable pub build_acme : ListenConfig → Option Manager → Option Tls
  build_acme cfg none = none
  build_acme cfg (some manager) =
      if start_acme_challenge_listener sys.tls cfg.acme_challenge_addr
      then some (acme manager)
      else none

  -- The switch on the TLS mode; `none` is an exit.
  unfoldable pub build_tls : ListenConfig → Option Tls
  build_tls cfg =
      if bytes_eq cfg.tls_mode (codes "off") || is_empty cfg.tls_mode
      then some plain
      else if bytes_eq cfg.tls_mode (codes "manual")
      then Option.map manual (build_manual_tls sys.tls cfg.cert_file cfg.key_file)
      else if bytes_eq cfg.tls_mode (codes "self-signed")
      then Option.map self_signed (build_self_signed_tls sys.tls cfg.acme_domains)
      else if bytes_eq cfg.tls_mode (codes "acme")
      then build_acme cfg
          (build_autocert_tls sys.tls cfg.acme_domains cfg.acme_email cfg.acme_cache_dir)
      else none

  unfoldable pub hostname_of : Config → Bytes
  hostname_of cfg = or_else cfg.hostname sys.os_hostname

  -- From the certificates on.
  unfoldable pub start_service : Config → W → Bytes → Option Tls → Outcome W
  start_service cfg w addr none = exits 1
  start_service cfg w addr (some tls) =
      if sys.tls.listens cfg.listen.addr
      then serves (record {
        config = cfg;
        hostname = hostname_of cfg;
        level = level_of (override sys.log_level cfg.logging.level);
        json = is_json (override sys.log_format cfg.logging.format);
        writer = w;
        queue = queue_config cfg.queue;
        health = record {
          writer_type = cfg.output.type;
          writer_addr = addr;
          tls_enabled = not (bytes_eq cfg.listen.tls_mode (codes "off"));
          tls_cert_file = cfg.listen.cert_file;
        };
        tls = tls;
      })
      else exits 1

  -- The mode -emit-test-events.
  unfoldable pub run_emit_test : Config → W → S → Outcome W × S
  run_emit_test cfg w s =
      let (s1, emitted) = emit_test_events (sys.write_event w) (hostname_of cfg) sys.now s in
      let (s2, closed) = sys.close w s1 in (exits (emit_exit_code emitted closed), s2)

  -- From the writer on.
  unfoldable pub run_with_writer : Bool → Config → Built W → S → Outcome W × S
  run_with_writer emit_test cfg refused s = (exits 1, s)
  run_with_writer emit_test cfg too_deep s = (diverges, s)
  run_with_writer true cfg (built w addr) s = run_emit_test cfg w s
  run_with_writer false cfg (built w addr) s = (start_service cfg w addr (build_tls cfg.listen), s)

  -- From the decoded configuration on.
  unfoldable pub run_config : ℕ → Bool → Config → S → Outcome W × S
  run_config depth emit_test c s =
      let cfg = record c { listen = migrate_listen_config c.listen } in
      if validate_output_config cfg.output
      then run_with_writer emit_test cfg (build_writer sys.new depth cfg.output) s
      else (exits 1, s)

  unfoldable pub run_decoded : ℕ → Bool → Decoded → S → Outcome W × S
  run_decoded depth emit_test (decoded c) s = run_config depth emit_test c s
  run_decoded depth emit_test missing s = run_config depth emit_test default_config s
  run_decoded depth emit_test malformed s = (exits 1, s)

  -- run, with the flags -config and -emit-test-events.
  unfoldable pub run : ℕ → Bytes → Bool → S → Outcome W × S
  run depth cfg_path emit_test s =
      run_decoded depth emit_test (sys.decode_file cfg_path default_config) s
