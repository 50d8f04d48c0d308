-- ===== src/Writers/Sockets.antt =====
-- The connections of pkg/evtx/writer_gelf.go, writer_syslog.go and writer_beats.go. A dial and the
-- close of a connection are arguments, on a world that they share.
pub mod Single
pub mod Calls
use cee_exporter.Common.{
  ℕ, Bool, true, false, Option, none, some, List, if◌then◌else◌, Bytes, codes, bytes_eq, ℤ, pos,
  is_zero,
}
use cee_exporter.Parser.CheckEvent.{is_empty}
use cee_exporter.Mapper.{WindowsEvent}
use cee_exporter.Common.Assoc.{Assoc}
use cee_exporter.Writers.Messages.{Json, SyslogMessage, build_gelf, build_syslog5424}
use cee_exporter.Writers.{
  send_with_retry, socket_write_event, socket_write_batch, gelf_transport, syslog_transport,
}

pub record GelfConfig : Type 0 where
  pub host : Bytes
  pub port : ℤ
  pub protocol : Bytes
  pub tls : Bool

pub record SyslogConfig : Type 0 where
  pub host : Bytes
  pub port : ℤ
  pub protocol : Bytes
  pub app_name : Bytes

pub record BeatsConfig : Type 0 where
  pub host : Bytes
  pub port : ℤ
  pub tls : Bool

unfoldable pub default_port : ℤ → ℕ → ℤ
default_port port default = if is_zero port then pos default else port

unfoldable pub default_text : Bytes → Bytes → Bytes
default_text s default = if is_empty s then default else s

-- The defaults of NewGELFWriter, NewSyslogWriter and NewBeatsWriter.
unfoldable pub gelf_with_defaults : GelfConfig → GelfConfig
gelf_with_defaults cfg = record cfg {
  port = default_port cfg.port 12201;
  protocol = default_text cfg.protocol (codes "udp");
}

unfoldable pub syslog_with_defaults : SyslogConfig → SyslogConfig
syslog_with_defaults cfg = record cfg {
  port = default_port cfg.port 514;
  protocol = default_text cfg.protocol (codes "udp");
  app_name = default_text cfg.app_name (codes "cee-exporter");
}

unfoldable pub beats_with_defaults : BeatsConfig → BeatsConfig
beats_with_defaults cfg = record cfg { port = default_port cfg.port 5044 }

-- What is dialled, at a host and a port: a network, or TLS over TCP.
pub data Endpoint : Type 0 where
  over_tls : Bytes → ℤ → Endpoint
  network : Bytes → Bytes → ℤ → Endpoint

-- The switch of GELFWriter.connect.
unfoldable pub gelf_endpoint : GelfConfig → Endpoint
gelf_endpoint cfg =
    if bytes_eq cfg.protocol (codes "tcp")
    then if cfg.tls then over_tls cfg.host cfg.port else network (codes "tcp") cfg.host cfg.port
    else network (codes "udp") cfg.host cfg.port

unfoldable pub syslog_endpoint : SyslogConfig → Endpoint
syslog_endpoint cfg = network cfg.protocol cfg.host cfg.port

unfoldable pub beats_endpoint : BeatsConfig → Endpoint
beats_endpoint cfg =
    if cfg.tls then over_tls cfg.host cfg.port else network (codes "tcp") cfg.host cfg.port

-- A writer's field `conn` (or `client`) and the world.
pub record Socket (C S : Type 0) : Type 0 where
  pub conn : Option C
  pub world : S

module _ {C S : Type 0} (dial : Endpoint → S → S × Option C) (close : C → S → S × Bool) where
  -- The old connection is closed, and whether that failed is ignored.
  unfoldable pub drop_old : Option C → S → S
  drop_old none s = s
  drop_old (some c) s = (close c s).0

  unfoldable pub keep_dialled : Option C → S × Option C → Socket C S × Bool
  keep_dialled old (s, none) = (record { conn = old; world = s }, false)
  keep_dialled old (s, some c) = (record { conn = some c; world = drop_old old s }, true)

  -- connect of GELFWriter and of SyslogWriter.
  unfoldable pub connect : Endpoint → Socket C S → Socket C S × Bool
  connect e w = keep_dialled w.conn (dial e w.world)

  unfoldable pub opened_by : Socket C S × Bool → S × Option (Socket C S)
  opened_by (w, true) = (w.world, some w)
  opened_by (w, false) = (w.world, none)

  -- NewGELFWriter and NewSyslogWriter.
  unfoldable pub new_gelf_writer : GelfConfig → S → S × Option (Socket C S)
  new_gelf_writer cfg s =
      opened_by
        (connect (gelf_endpoint (gelf_with_defaults cfg)) (record { conn = none; world = s }))

  unfoldable pub new_syslog_writer : SyslogConfig → S → S × Option (Socket C S)
  new_syslog_writer cfg s =
      opened_by
        (connect (syslog_endpoint (syslog_with_defaults cfg)) (record { conn = none; world = s }))

  -- sendRaw of GELFWriter and of SyslogWriter: `write` writes with a deadline of five seconds. A
  -- writer without a connection is never made.
  unfoldable pub send_on : (Bytes → C → S → S × Bool) → Bytes → Option C → S → S × Bool
  send_on write b none s = (s, false)
  send_on write b (some c) s = write b c s

  unfoldable pub send_raw : (Bytes → C → S → S × Bool) → Bytes → Socket C S → Socket C S × Bool
  send_raw write b w =
      let (s, ok) = send_on write b w.conn w.world in (record { conn = w.conn; world = s }, ok)

  -- WriteEvent and WriteBatch of GELFWriter, with `encode` the JSON encoder.
  module _ (write : Bytes → C → S → S × Bool) (cfg : GelfConfig)
      (encode : Assoc Bytes Json → Option Bytes) where
    unfoldable pub gelf_write_event : WindowsEvent → Socket C S → Socket C S × Bool
    gelf_write_event =
        socket_write_event (build_gelf encode) (send_raw write) (connect (gelf_endpoint cfg))
          (gelf_transport (bytes_eq cfg.protocol (codes "tcp")))

    unfoldable pub gelf_write_batch : List WindowsEvent → Socket C S → Socket C S × Bool
    gelf_write_batch =
        socket_write_batch (build_gelf encode) (send_raw write) (connect (gelf_endpoint cfg))
          (gelf_transport (bytes_eq cfg.protocol (codes "tcp")))

  -- WriteEvent and WriteBatch of SyslogWriter, with `marshal` the RFC 5424 encoder.
  module _ (write : Bytes → C → S → S × Bool) (cfg : SyslogConfig)
      (marshal : SyslogMessage → Option Bytes) where
    abbrev build_message : WindowsEvent → Option Bytes
    build_message e = build_syslog5424 marshal e cfg.app_name

    unfoldable pub syslog_write_event : WindowsEvent → Socket C S → Socket C S × Bool
    syslog_write_event =
        socket_write_event build_message (send_raw write) (connect (syslog_endpoint cfg))
          (syslog_transport (bytes_eq cfg.protocol (codes "tcp")))

    unfoldable pub syslog_write_batch : List WindowsEvent → Socket C S → Socket C S × Bool
    syslog_write_batch =
        socket_write_batch build_message (send_raw write) (connect (syslog_endpoint cfg))
          (syslog_transport (bytes_eq cfg.protocol (codes "tcp")))

  unfoldable pub close_conn : Option C → S → S × Bool
  close_conn none s = (s, true)
  close_conn (some c) s = close c s

  -- Close of the three writers: the field keeps the closed connection.
  unfoldable pub socket_close : Socket C S → Socket C S × Bool
  socket_close w =
      let (s, ok) = close_conn w.conn w.world in (record { conn = w.conn; world = s }, ok)

  unfoldable pub keep_client : Option C → S × Option C → Socket C S × Bool
  keep_client old (s, none) = (record { conn = old; world = s }, false)
  keep_client old (s, some c) = (record { conn = some c; world = s }, true)

  -- BeatsWriter.dial
  unfoldable pub beats_dial : Endpoint → Socket C S → Socket C S × Bool
  beats_dial e w = keep_client w.conn (dial e w.world)

  unfoldable pub new_beats_writer : BeatsConfig → S → S × Option (Socket C S)
  new_beats_writer cfg s =
      opened_by
        (beats_dial (beats_endpoint (beats_with_defaults cfg)) (record { conn = none; world = s }))

  -- The reconnect of BeatsWriter: the client is closed first.
  unfoldable pub beats_reconnect : Endpoint → Socket C S → Socket C S × Bool
  beats_reconnect e w = beats_dial e (record w { world = drop_old w.conn w.world })

  -- BeatsWriter.WriteEvent, where `send` sends a window of one event by the client.
  unfoldable pub beats_write_event {ℓ} :
      {B : Type ℓ}
      → (WindowsEvent → B)
      → (B → Socket C S → Socket C S × Bool)
      → BeatsConfig
      → WindowsEvent
      → Socket C S
      → Socket C S × Bool
  beats_write_event build send cfg e w =
      send_with_retry (send (build e)) (beats_reconnect (beats_endpoint cfg)) w
