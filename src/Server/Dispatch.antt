-- ===== src/Server/Dispatch.antt =====
-- ServeHTTP and enqueue of pkg/server/server.go. net.SplitHostPort, os.Hostname and the parsers'
-- calls out of the repository are parameters.
use cee_exporter.Common.{
  ◌+◌, Bool, true, false, not, ◌&&◌, ◌||◌, Option, none, some, List, [], ◌∷◌, ◌++◌, if◌then◌else◌,
  Bytes, codes, length, bytes_eq,
}
use cee_exporter.Metrics.{
  record_event, record_peer_request_at, record_peer_registration, record_peer_heartbeat,
}
use cee_exporter.Queue.{enqueue}
use cee_exporter.Parser.Event.{Outside, CepaEvent}
use cee_exporter.Parser.Classify.{
  Dialect, dialect_unknown, dialect_register_request, dialect_heart_beat_request,
  dialect_check_file_request, dialect_check_event_request, classify,
}
use cee_exporter.Parser.OneFs.{parse_one_fs_event_decoded, is_unmapped_one_fs_event_type}
use cee_exporter.Parser.CheckEvent.{
  parse_check_event_request_decoded, is_unmapped_cee_event_type, is_empty,
}
use cee_exporter.Parser.Vcaps.{parse_decoded, check_file_action_decoded}
use cee_exporter.Mapper.{map_event}
use cee_exporter.Server.Register.{heartbeat_reply}
use cee_exporter.Server.{
  Handler, Request, Reply, failure, unmapped, on_store, add_log, add_reply, count_drop,
  count_received, acquire_slot, release_slot, respond, check_event_response, answer_unreadable_body,
  read_probe, read_body, handshake_probe_bytes, log_unhandled, rest_limit,
}

-- What the handler calls outside the repository.
pub record Platform : Type 0 where
  pub outside : Outside
  pub split_host_port : Bytes → Option Bytes
  pub os_hostname : Bytes
  pub sha256 : Bytes → Bytes
  pub to_valid_utf8 : Bytes → Bytes

-- checkFileResponse
unfoldable pub check_file_response : Bytes
check_file_response =
    codes
      "<CheckFileResponse status=\"0x0\" ceeVersion=\"9.2.0.0\">\n<HeartBeatResponse ceeVersion=\"9.2.0.0\" dtdVersion=\"2.5.3\">\n<CEPPHeartBeatResponse>\n<CEPPCapabilities>\n<Protocols CIFS=\"1\" NFS=\"1\" HDFS=\"0\"/>\n<Partner multiplicity=\"1\"/>\n</CEPPCapabilities>\n</CEPPHeartBeatResponse>\n</HeartBeatResponse>\n</CheckFileResponse>\n"

-- "9"
unfoldable pub one_fs_heartbeat_action : Bytes
one_fs_heartbeat_action = codes "9"

module _ (p : Platform) where
  unfoldable pub peer_host : Bytes → Bytes
  peer_host addr = elim (p.split_host_port addr) [ none ↦ addr | some host ↦ host ]

  abbrev pub is_heartbeat : Bytes → Bool
  is_heartbeat decoded =
      bytes_eq (check_file_action_decoded p.outside decoded) one_fs_heartbeat_action

  unfoldable pub is_liveness_dialect : Dialect → Bytes → Bool
  is_liveness_dialect dialect_unknown decoded = false
  is_liveness_dialect dialect_register_request decoded = true
  is_liveness_dialect dialect_heart_beat_request decoded = true
  is_liveness_dialect dialect_check_file_request decoded = is_heartbeat decoded
  is_liveness_dialect dialect_check_event_request decoded = false

  -- One round of the loop of `enqueue`.
  unfoldable pub enqueue_one : Bytes → CepaEvent → Handler → Handler
  enqueue_one hostname e h =
      let counted = on_store (record_event e.event_type e.protocol e.server) h in
      let one_fs =
        (if is_unmapped_one_fs_event_type e.event_type
          then add_log (unmapped (codes "cepa_onefs_event_type_unmapped") e.event_type e.file_path)
              counted
          else counted) in
      let cee =
        (if is_unmapped_cee_event_type e.event_type
          then add_log (unmapped (codes "cepa_cee_event_type_unmapped") e.event_type e.file_path)
              one_fs
          else one_fs) in
      record cee { queue = (enqueue (map_event p.os_hostname e hostname) cee.queue).0 }

  unfoldable pub enqueue_loop : Bytes → List CepaEvent → Handler → Handler
  enqueue_loop hostname [] h = h
  enqueue_loop hostname (e ∷ es) h = enqueue_loop hostname es (enqueue_one hostname e h)

  -- Handler.enqueue
  unfoldable pub enqueue_events : List CepaEvent → Request → Handler → Handler
  enqueue_events events r h =
      enqueue_loop (if is_empty h.hostname then r.host else h.hostname) events
        (on_store (count_received (length events)) h)

  unfoldable pub serve_register : Request → Bytes → Handler → Handler
  serve_register r body h =
      respond r body h.register_reply (codes "text/xml")
        (codes "cepa_register_response_write_error")
        (on_store (record_peer_registration (peer_host r.remote_addr)) h)

  unfoldable pub serve_heart_beat : Request → Bytes → Handler → Handler
  serve_heart_beat r body h =
      respond r body heartbeat_reply (codes "text/plain")
        (codes "cepa_heartbeat_response_write_error")
        (on_store (record_peer_heartbeat (peer_host r.remote_addr)) h)

  -- A OneFS event after its reply, and after it is parsed.
  unfoldable pub one_fs_parsed :
      Request → Bytes → Bytes → Option (List CepaEvent) → Handler → Handler
  one_fs_parsed r decoded body (some events) h = enqueue_events events r h
  one_fs_parsed r decoded body none h =
      let counted = record (on_store count_drop h) { onefs_unhandled = h.onefs_unhandled + 1 } in
      log_unhandled p.sha256 p.to_valid_utf8 (codes "cepa_onefs_event_unhandled")
        counted.onefs_unhandled decoded body counted

  unfoldable pub serve_check_file : Request → Bytes → Bytes → Handler → Handler
  serve_check_file r decoded body h =
      let heartbeat = is_heartbeat decoded in
      let counted =
        (if heartbeat then on_store (record_peer_heartbeat (peer_host r.remote_addr)) h else h) in
      let answered =
        respond r body check_file_response (codes "text/xml")
          (codes "cepa_check_file_response_write_error") counted in
      if not r.write_ok || heartbeat
      then answered
      else one_fs_parsed r decoded body
          (parse_one_fs_event_decoded p.outside decoded r.receive_time) answered

  -- A Dell CEE delivery after its reply, and after it is parsed.
  unfoldable pub cee_parsed : Request → Bytes → Bytes → Option (List CepaEvent) → Handler → Handler
  cee_parsed r decoded body (some events) h = enqueue_events events r h
  cee_parsed r decoded body none h =
      let counted = record (on_store count_drop h) { cee_unhandled = h.cee_unhandled + 1 } in
      log_unhandled p.sha256 p.to_valid_utf8 (codes "cepa_cee_event_unhandled")
        counted.cee_unhandled decoded body counted

  unfoldable pub serve_check_event : Request → Bytes → Bytes → Handler → Handler
  serve_check_event r decoded body h =
      let answered =
        respond r body check_event_response (codes "text/xml")
          (codes "cepa_check_event_response_write_error") h in
      if r.write_ok
      then cee_parsed r decoded body
          (parse_check_event_request_decoded p.outside decoded r.receive_time) answered
      else answered

  -- w.WriteHeader(http.StatusOK) with no body
  abbrev pub empty_reply : Reply
  empty_reply = record { status = 200; content_type = []; body = []; delivered = true }

  -- The VCAPS shapes, after they are parsed.
  unfoldable pub vcaps_parsed : Request → Option (List CepaEvent) → Handler → Handler
  vcaps_parsed r none h = add_reply empty_reply (add_log (failure (codes "cepa_parse_error")) h)
  vcaps_parsed r (some events) h = enqueue_events events r (add_reply empty_reply h)

  unfoldable pub serve_vcaps : Request → Bytes → Handler → Handler
  serve_vcaps r decoded h = vcaps_parsed r (parse_decoded p.outside decoded r.receive_time) h

  unfoldable pub serve_dialect : Request → Dialect → Bytes → Bytes → Handler → Handler
  serve_dialect r dialect_register_request decoded body h = serve_register r body h
  serve_dialect r dialect_check_file_request decoded body h = serve_check_file r decoded body h
  serve_dialect r dialect_heart_beat_request decoded body h = serve_heart_beat r body h
  serve_dialect r dialect_check_event_request decoded body h = serve_check_event r decoded body h
  serve_dialect r dialect_unknown decoded body h = serve_vcaps r decoded h

  -- From the test of `decodeErr` on.
  unfoldable pub serve_classified : Request → Bytes → Option (Dialect × Bytes) → Handler → Handler
  serve_classified r body none h =
      respond r body check_event_response (codes "text/xml")
        (codes "cepa_decode_error_response_write_error")
        (add_log (failure (codes "cepa_decode_error")) h)
  serve_classified r body (some (dialect, decoded)) h = serve_dialect r dialect decoded body h

  -- A complete probe: a liveness payload takes no slot.
  unfoldable pub serve_complete : Request → Bytes → Option (Dialect × Bytes) → Handler → Handler
  serve_complete r body none h = release_slot (serve_classified r body none (acquire_slot h))
  serve_complete r body (some (dialect, decoded)) h =
      if is_liveness_dialect dialect decoded
      then serve_classified r body (some (dialect, decoded)) h
      else release_slot (serve_classified r body (some (dialect, decoded)) (acquire_slot h))

  -- A body longer than the probe.
  unfoldable pub serve_long : Request → Bytes → Option Bytes → Handler → Handler
  serve_long r probe none h =
      release_slot (answer_unreadable_body r probe (codes "cepa_body_read_error") (acquire_slot h))
  serve_long r probe (some rest) h =
      release_slot (serve_classified r (probe ++ rest) (classify (probe ++ rest)) (acquire_slot h))

  -- From the first read on.
  unfoldable pub serve_probe : Request → Option (Bytes × Bool) → Handler → Handler
  serve_probe r none h = answer_unreadable_body r [] (codes "cepa_body_read_error") h
  serve_probe r (some (probe, true)) h = serve_complete r probe (classify probe) h
  serve_probe r (some (probe, false)) h =
      serve_long r probe (read_body r (length probe) (rest_limit h.limits (length probe))) h

  unfoldable pub serve_http : Request → Handler → Handler
  serve_http r h =
      if not (bytes_eq r.method (codes "PUT")) && not (bytes_eq r.method (codes "POST"))
      then add_reply
          (record {
            status = 405;
            content_type = codes "text/plain; charset=utf-8";
            body = codes "method not allowed\n";
            delivered = true;
          })
          h
      else serve_probe r (read_probe r handshake_probe_bytes)
          (on_store (record_peer_request_at (peer_host r.remote_addr) r.start_unix) h)
