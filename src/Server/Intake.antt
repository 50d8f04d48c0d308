-- ===== src/Server/Intake.antt =====
-- What a request of pkg/server/server.go brings to the queue, read off the request alone: the
-- payload that can be read, the events in it, and whether it takes a slot.
mod Offered
mod Queued
pub mod Slotted
pub mod Audited
use cee_exporter.Common.{
  ◌+◌, ◌-◌, Bool, true, false, not, ◌&&◌, ◌||◌, Option, none, some, List, [], ◌∷◌, map, ltb, leb,
  if◌then◌else◌, Bytes, length,
}
use cee_exporter.Queue.{Queue, enqueue}
use cee_exporter.Parser.Event.{CepaEvent}
use cee_exporter.Parser.Classify.{
  Dialect, dialect_unknown, dialect_register_request, dialect_heart_beat_request,
  dialect_check_file_request, dialect_check_event_request, classify,
}
use cee_exporter.Parser.OneFs.{parse_one_fs_event_decoded}
use cee_exporter.Parser.CheckEvent.{parse_check_event_request_decoded, is_empty}
use cee_exporter.Parser.Vcaps.{parse_decoded}
use cee_exporter.Mapper.{WindowsEvent, map_event}
use cee_exporter.Server.{LimitsConfig, Request, rest_limit, handshake_probe_bytes}
use cee_exporter.Server.Slots.{is_accepted}
use cee_exporter.Server.Dispatch.{Platform, is_heartbeat, is_liveness_dialect}

-- One call of Enqueue after the other.
unfoldable pub offer : List WindowsEvent → Queue WindowsEvent → Queue WindowsEvent
offer [] q = q
offer (e ∷ es) q = offer es (enqueue e q).0

abbrev pub or_no_events : Option (List CepaEvent) → List CepaEvent
or_no_events none = []
or_no_events (some es) = es

-- A body that fails, or is longer than the limit, is not read.
unfoldable pub readable_body : LimitsConfig → Request → Option Bytes
readable_body limits r =
    let probed = handshake_probe_bytes + 1 in
    if r.broken
      || (not (leb (length r.body) handshake_probe_bytes)
          && ltb (rest_limit limits probed) (length r.body - probed))
    then none
    else some r.body

module _ (p : Platform) where
  -- The dialects that are answered before they are parsed yield no event if the answer fails.
  unfoldable pub dialect_events : Request → Dialect → Bytes → List CepaEvent
  dialect_events r dialect_register_request decoded = []
  dialect_events r dialect_heart_beat_request decoded = []
  dialect_events r dialect_check_file_request decoded =
      if not r.write_ok || is_heartbeat p decoded
      then []
      else or_no_events (parse_one_fs_event_decoded p.outside decoded r.receive_time)
  dialect_events r dialect_check_event_request decoded =
      if r.write_ok
      then or_no_events (parse_check_event_request_decoded p.outside decoded r.receive_time)
      else []
  dialect_events r dialect_unknown decoded =
      or_no_events (parse_decoded p.outside decoded r.receive_time)

  unfoldable pub classified_events : Request → Option (Dialect × Bytes) → List CepaEvent
  classified_events r none = []
  classified_events r (some (dialect, decoded)) = dialect_events r dialect decoded

  unfoldable pub body_events : Request → Option Bytes → List CepaEvent
  body_events r none = []
  body_events r (some body) = classified_events r (classify body)

  -- The events of a request, as what the queue is given.
  unfoldable pub intake : LimitsConfig → Bytes → Request → List WindowsEvent
  intake limits hostname r =
      map (λ e. map_event p.os_hostname e (if is_empty hostname then r.host else hostname))
        (if is_accepted r.method then body_events r (readable_body limits r) else [])

  unfoldable pub is_live : Option (Dialect × Bytes) → Bool
  is_live none = false
  is_live (some (dialect, decoded)) = is_liveness_dialect p dialect decoded

  -- All but the refused methods, the probes that cannot be read and the liveness traffic.
  unfoldable pub takes_slot : Request → Bool
  takes_slot r =
      is_accepted r.method
      && (if leb (length r.body) handshake_probe_bytes
          then not r.broken && not (is_live (classify r.body))
          else true)
