-- ===== src/Tests/Processes.antt =====
-- A process at two requests: a payload of two events, and a liveness probe.
use cee_exporter.Common.{
  ◌+◌, ◌≤◌, ◌≡◌, refl, Bool, true, false, not, Option, none, some, List, [], ◌∷◌, Bytes, codes,
  bytes_eq, has_prefix, strip_prefix, pos, count, total, every, ◌++◌, length,
}
use cee_exporter.Metrics.{zero_store}
use cee_exporter.Queue.{
  Config, receives, begins, ends, waits, draining, enqueue, receive_from, write_begin, write_end,
  stop, stop_wait, start, with_defaults,
}
use cee_exporter.Queue
use cee_exporter.Queue.Conservation.{handed}
use cee_exporter.Parser.Event.{RawEvent, Outside}
use cee_exporter.Parser.Classify.{
  classify, classify_decoded, root_is, root_of, name_ends, after_pair, has_byte,
}
use cee_exporter.Parser.Text.{trim_space, trim_by, space_at, space_back}
use cee_exporter.Parser.Utf16.{decode_body}
use cee_exporter.Parser.Vcaps.{parse_decoded, convert_all}
use cee_exporter.Mapper.{WindowsEvent}
use cee_exporter.Mapper.Audit.{is_audit}
use cee_exporter.Server.{LimitsConfig, Request, limits_with_defaults, natural}
use cee_exporter.Server.Dispatch.{Platform, is_liveness_dialect}
use cee_exporter.Server.Slots.{is_accepted}
use cee_exporter.Server.Intake.{
  intake, takes_slot, body_events, classified_events, dialect_events, readable_body, is_live,
}
use cee_exporter.Serving.{
  Move, arrives, acquires, offers, returns, signals, shuts, closes, queues, Process, begin, move,
  step, run, acquire, offer_next, finish_request, shutdown, close_queue, move_queue, signal, arrive,
  is_answered, is_ended, answered,
}
use cee_exporter.Serving.Requests.{run-Accounts, remaining, slots_of}
use cee_exporter.Serving.Progress.{HasMove, request_progress}
use cee_exporter.Serving.Handshake.{is_handshake, handshake_progress}
use cee_exporter.Serving.Stopping.{graceful_exit}
use cee_exporter.Serving.Exit.{Leaves, own_move, moves_left, is_leaving, exit_progress}
use cee_exporter.Serving.Written.{written-is_audit}

abbrev config : Config
config = record {
  capacity = pos 2;
  workers = pos 1;
  drain_timeout = pos 0;
  max_batch = pos 2;
  batch_timeout = pos 0;
}

abbrev raw : RawEvent
raw = record {
  event_type = codes "CEPP_FILE_WRITE";
  timestamp = [];
  file_path = codes "/ifs/a";
  user_sid = [];
  username = [];
  domain = [];
  logon_id = [];
  client_address = [];
  bytes_read = [];
  bytes_written = [];
  number_of_reads = [];
  number_of_writes = [];
}

-- Every document unmarshals to a batch of two events.
abbrev outside_calls : Outside
outside_calls = record {
  unmarshal_batch = λ b. some (raw ∷ raw ∷ []);
  unmarshal_single = λ b. none;
  unmarshal_one_fs = λ b. none;
  unmarshal_check_event = λ b. none;
  unmarshal_action = λ b. none;
  base64_decode = λ b. none;
  parse_time = λ layout s. none;
}

abbrev platform : Platform
platform = record {
  outside = outside_calls;
  split_host_port = λ addr. none;
  os_hostname = codes "exporter";
  sha256 = λ s. s;
  to_valid_utf8 = λ s. s;
}

abbrev limits : LimitsConfig
limits = record { max_body_mb = pos 0; max_concurrent_requests = pos 1 }

abbrev put : Bytes → Request
put body = record {
  method = codes "PUT";
  remote_addr = codes "nas:1";
  host = codes "consumer";
  body = body;
  broken = false;
  write_ok = true;
  start_unix = 1000;
  receive_time = record { sec = pos 1000; nsec = 5 };
}

abbrev batch : Request
batch = put (codes "<Batch/>")

abbrev probe : Request
probe = put (codes "<HeartBeatRequest />")

abbrev first : Process
first = begin platform limits [] config zero_store

abbrev the : Option Process → Process
the none = first
the (some s) = s

-- Two payloads and a probe: the second payload waits for the slot of the first.
abbrev crowded : List Move
crowded = arrives batch ∷ acquires 0 ∷ arrives batch ∷ offers 0 ∷ arrives probe ∷ []

-- A shutdown after a payload, up to where the workers have finished.
abbrev drained : List Move
drained =
    arrives batch
    ∷ acquires 0
    ∷ offers 0
    ∷ signals
    ∷ offers 0
    ∷ returns 0
    ∷ shuts false
    ∷ queues (receives 0)
    ∷ queues (receives 0)
    ∷ closes
    ∷ queues (begins 0)
    ∷ queues (ends 0 true 5)
    ∷ queues (receives 0)
    ∷ []

-- A shutdown with a request in flight.
abbrev hanging : List Move
hanging = arrives batch ∷ acquires 0 ∷ signals ∷ []

abbrev after : List Move → Process
after ms = the (run platform limits [] ms first)

ran :
    (run platform limits [] crowded first ≡ some (after crowded))
    × (run platform limits [] drained first ≡ some (after drained))
    × (run platform limits [] hanging first ≡ some (after hanging))
unfolding run step move begin arrive acquire offer_next finish_request signal shutdown close_queue
    move_queue Queue.step enqueue receive_from write_begin write_end stop stop_wait start
    with_defaults limits_with_defaults intake takes_slot is_accepted readable_body body_events
    classified_events dialect_events is_live is_liveness_dialect classify bytes_eq codes decode_body
    classify_decoded root_is root_of trim_space trim_by space_at space_back has_prefix after_pair
    strip_prefix name_ends has_byte parse_decoded convert_all
ran = (refl, refl, refl)

run-Accounts_example :
    ((t : WindowsEvent → Bool)
      → count t (after crowded).arrived
        ≡ total (λ w. count t (remaining w)) (after crowded).handlings
          + count t (after crowded).queue.accepted
          + count t (after crowded).queue.refused)
    × ((after crowded).slots ≡ total slots_of (after crowded).handlings)
    × ((after crowded).slots ≤ natural (limits_with_defaults limits).max_concurrent_requests)
run-Accounts_example =
    run-Accounts platform limits [] config zero_store crowded (after crowded) ran.0

abbrev stopped_process : Process
stopped_process = the (step platform limits [] (queues (waits false)) (after drained))

-- the states that the theorems ask for
crowded_waits :
    (is_ended (after crowded).stage ≡ false) × (every is_answered (after crowded).handlings ≡ false)
unfolding run step move begin arrive acquire offer_next finish_request signal shutdown close_queue
    move_queue Queue.step enqueue receive_from write_begin write_end stop stop_wait start
    with_defaults limits_with_defaults intake takes_slot is_accepted readable_body body_events
    classified_events dialect_events is_live is_liveness_dialect classify bytes_eq codes decode_body
    classify_decoded root_is root_of trim_space trim_by space_at space_back has_prefix after_pair
    strip_prefix name_ends has_byte parse_decoded convert_all
crowded_waits = (refl, refl)

drained_stops :
    ((after drained).reachable ≡ false)
    × ((after drained).queue.phase ≡ draining)
    × (step platform limits [] (queues (waits false)) (after drained) ≡ some stopped_process)
unfolding run step move begin arrive acquire offer_next finish_request signal shutdown close_queue
    move_queue Queue.step enqueue receive_from write_begin write_end stop stop_wait start
    with_defaults limits_with_defaults intake takes_slot is_accepted readable_body body_events
    classified_events dialect_events is_live is_liveness_dialect classify bytes_eq codes decode_body
    classify_decoded root_is root_of trim_space trim_by space_at space_back has_prefix after_pair
    strip_prefix name_ends has_byte parse_decoded convert_all
drained_stops = (refl, refl, refl)

hanging_leaves : is_leaving (after hanging).stage ≡ true
unfolding run step move begin arrive acquire offer_next finish_request signal shutdown close_queue
    move_queue Queue.step enqueue receive_from write_begin write_end stop stop_wait start
    with_defaults limits_with_defaults intake takes_slot is_accepted readable_body body_events
    classified_events dialect_events is_live is_liveness_dialect classify bytes_eq codes decode_body
    classify_decoded root_is root_of trim_space trim_by space_at space_back has_prefix after_pair
    strip_prefix name_ends has_byte parse_decoded convert_all
hanging_leaves = refl

-- both events of the payload are in the one batch that was written
both_written : handed (λ e. true) (after drained).queue ≡ 2
unfolding run step move begin arrive acquire offer_next finish_request signal shutdown close_queue
    move_queue Queue.step enqueue receive_from write_begin write_end stop stop_wait start
    with_defaults limits_with_defaults intake takes_slot is_accepted readable_body body_events
    classified_events dialect_events is_live is_liveness_dialect classify bytes_eq codes decode_body
    classify_decoded root_is root_of trim_space trim_by space_at space_back has_prefix after_pair
    strip_prefix name_ends has_byte parse_decoded convert_all
both_written = refl

request_progress_example : HasMove platform limits [] (after crowded)
request_progress_example =
    request_progress platform limits [] config zero_store crowded (after crowded) ran.0
      crowded_waits.0 crowded_waits.1

graceful_exit_example :
    ((t : WindowsEvent → Bool)
      → count t stopped_process.arrived
        ≡ handed t stopped_process.queue + count t stopped_process.queue.refused)
    × (stopped_process.late ≡ [])
    × (stopped_process.queue.ch ≡ [])
    × (stopped_process.queue.writer_closed ≡ true)
graceful_exit_example =
    graceful_exit platform limits [] config zero_store drained (after drained) stopped_process ran.1
      drained_stops.0 drained_stops.1 drained_stops.2

exit_progress_example :
    Leaves platform limits []
      (own_move (after hanging).stage (after hanging).queue.phase)
      (after hanging)
    × ((m : Move) (t : Process)
        → step platform limits [] m (after hanging) ≡ some t
        → moves_left t ≤ moves_left (after hanging))
    × (moves_left (after hanging) ≤ 7)
exit_progress_example =
    exit_progress platform limits [] config zero_store hanging (after hanging) ran.2 hanging_leaves

written-is_audit_example : handed (λ e. not (is_audit e)) (after drained).queue ≡ 0
written-is_audit_example =
    written-is_audit platform limits [] config zero_store drained (after drained) ran.1

-- the one slot is taken, and another request waits for it
crowded_takes :
    (is_handshake platform probe ≡ true)
    × ((after crowded).reachable ≡ true)
    × ((after crowded).slots ≡ (after crowded).limit)
unfolding run step move begin arrive acquire offer_next finish_request signal shutdown close_queue
    move_queue Queue.step enqueue receive_from write_begin write_end stop stop_wait start
    with_defaults limits_with_defaults intake takes_slot is_accepted readable_body body_events
    classified_events dialect_events is_live is_liveness_dialect classify bytes_eq codes decode_body
    classify_decoded root_is root_of trim_space trim_by space_at space_back has_prefix after_pair
    strip_prefix name_ends has_byte parse_decoded convert_all
crowded_takes = (refl, refl, refl)

handshake_progress_example :
    run platform limits []
      (arrives probe ∷ returns (length (after crowded).handlings) ∷ [])
      (after crowded)
    ≡ some (record (after crowded) { handlings = (after crowded).handlings ++ answered ∷ [] })
handshake_progress_example =
    handshake_progress platform limits [] probe (after crowded) crowded_takes.0 crowded_takes.1
      crowded_waits.0
