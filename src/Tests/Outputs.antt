-- ===== src/Tests/Outputs.antt =====
-- pkg/evtx and cmd/cee-exporter at small inputs.
use cee_exporter.Common.{
  ℕ, ◌≡◌, ◌≤◌, arith, length, refl, Bool, true, false, not, some, none, List, [], ◌∷◌, map, every,
  Bytes, codes, pos, ◌==◌, bytes_eq,
}
use cee_exporter.Common.Assoc.{bytes_key}
use cee_exporter.Mapper.{WindowsEvent}
use cee_exporter.Writers.{EvtxWriter, syslog_frames, frame_tcp, multi_write_batch, send_with_retry}
use cee_exporter.Writers.Multi.{batch, target, multi_write_batch-all}
use cee_exporter.Writers.Retry.{recorded_send, recorded_reconnect, send_with_retry-outcome}
use cee_exporter.Metrics.{zero_store}
use cee_exporter.Parser.Text.{format_uint, digits_onto}
use cee_exporter.Writers.Octets.{read_frames, read_frames-syslog}
use cee_exporter.Writers.Fields.{evtx_write_event, count_truncated}
use cee_exporter.Writers.Fields.Bound.{evtx_write_event-fits, is_cut}
use cee_exporter.Writers.Sockets.{Socket, socket_close}
use cee_exporter.Writers.Sockets.Single.{Network, network_dial, network_close}
use cee_exporter.Writers.Sockets.Calls.{Backend, gelf, one, many, calls, Holds, calls-Holds}
use cee_exporter.Writers.Messages.{gelf_fields}
use cee_exporter.Writers.Messages.Gelf.{IsGelf, gelf_fields-IsGelf}
use cee_exporter.Writers.Budget.{Fields, encoded_total, max_encoded_fields_bytes}
use cee_exporter.Cmd.{OutputConfig, Constructors, build_writer, too_deep, test_event}
use cee_exporter.Cmd.Build.{is_multi, build_writer_self}

abbrev events : List WindowsEvent
events =
    test_event (codes "nas") (record { sec = pos 1; nsec = 0 }) 4660
    ∷ test_event (codes "nas") (record { sec = pos 1; nsec = 0 }) 4663
    ∷ []

-- Target 1 fails, and so does event 4660.
abbrev works : ℕ → WindowsEvent → Bool
works i e = not (e.event_id == 4660)

abbrev takes : ℕ → Bool
takes i = not (i == 1)

-- the second target is handed the batch although the first one fails
both_attempted :
    multi_write_batch (map (target works takes) (1 ∷ 2 ∷ [])) events []
    ≡ (batch 1 events ∷ batch 2 events ∷ [], false)
both_attempted = multi_write_batch-all works takes (1 ∷ 2 ∷ []) events []

-- a failed send, a reconnect, a send
send_with_retry-outcome_example :
    send_with_retry recorded_send recorded_reconnect
      (record { outcomes = false ∷ true ∷ true ∷ []; sends = 0; reconnects = 0 })
    ≡ (record { outcomes = []; sends = 2; reconnects = 1 }, true)
send_with_retry-outcome_example = send_with_retry-outcome false true true [] 0 0

abbrev fields : Fields
fields = (codes "ObjectName", codes "/ifs/a") ∷ (codes "AccessMask", codes "0x2") ∷ []

-- Writers that are the names of their types.
abbrev constructors : Constructors Bytes
constructors = record {
  new_gelf_writer = λ c. some c.type;
  new_native_evtx_writer = λ c. none;
  new_syslog_writer = λ c. some c.type;
  new_beats_writer = λ c. some c.type;
  new_multi_writer = λ ws. [];
  join_host_port = λ host port. host;
  show_addrs = λ addrs. [];
}

abbrev output : List Bytes → OutputConfig
output targets = record {
  type = codes "multi";
  targets = targets;
  evtx_path = [];
  gelf_host = [];
  gelf_port = pos 0;
  gelf_protocol = [];
  gelf_tls = false;
  syslog_host = [];
  syslog_port = pos 0;
  syslog_protocol = [];
  syslog_app_name = [];
  beats_host = [];
  beats_port = pos 0;
  beats_tls = false;
  flush_interval_sec = pos 0;
  max_file_size_mb = pos 0;
  max_file_count = pos 0;
  rotation_interval_h = pos 0;
}

flat : every (λ t. not (is_multi t)) (output (codes "gelf" ∷ codes "syslog" ∷ [])).targets ≡ true
unfolding codes bytes_eq
flat = refl

build_writer_self_example :
    build_writer constructors 9 (output (codes "multi" ∷ codes "gelf" ∷ [])) ≡ too_deep
build_writer_self_example =
    build_writer_self constructors 9 (output (codes "multi" ∷ codes "gelf" ∷ []))
      (codes "gelf" ∷ []) refl refl

abbrev messages : List Bytes
messages = codes "<110>1 a b" ∷ [] ∷ codes "12 x" ∷ []

-- the stream of the three messages
octets : syslog_frames [] messages ≡ codes "10 <110>1 a b0 4 12 x"
unfolding syslog_frames frame_tcp format_uint digits_onto codes
octets = refl

read_frames-syslog_example : read_frames 3 (syslog_frames [] messages) ≡ some messages
unfolding codes
read_frames-syslog_example =
    read_frames-syslog 3 messages (omega arith) (omega arith, (omega arith, (omega arith, tt)))

-- A file that keeps the event ids it was given.
abbrev store_id : ℕ → Fields → List ℕ → List ℕ × Bool
store_id id values file = (id ∷ file, true)

abbrev new_file : EvtxWriter (List ℕ)
new_file = record { closed = false; close_ok = true; file = [] }

abbrev deleted : WindowsEvent
deleted = test_event (codes "nas") (record { sec = pos 1; nsec = 0 }) 4660

evtx_write_event-fits_example :
    (record_fields : Fields) × (evtx_write_event
        (λ t. codes "1970")
        store_id
        deleted
        (new_file, zero_store)
      ≡ some (
        (
          record new_file { file = 4660 ∷ [] },
          count_truncated (is_cut (λ t. codes "1970") deleted) zero_store,
        ),
        true,
      ))
    × (encoded_total record_fields ≤ max_encoded_fields_bytes)
    × (length record_fields ≡ 19)
unfolding test_event
evtx_write_event-fits_example =
    evtx_write_event-fits (λ t. codes "1970") store_id deleted new_file zero_store

-- The first write fails, so the writer connects again; the close of the first connection fails.
abbrev network : Network
network = record {
  dials = true ∷ [];
  closes = false ∷ [];
  writes = false ∷ true ∷ [];
  next = 1;
  live = 0 ∷ [];
}

abbrev connected : Socket ℕ Network
connected = record { conn = some 0; world = network }

abbrev graylog : Backend
graylog =
    gelf (record { host = codes "graylog"; port = pos 12201; protocol = codes "tcp"; tls = true })
      (λ fields. some (codes "{}"))

calls-Holds_example :
    Holds (calls graylog (one deleted ∷ many events ∷ []) connected)
    × ((socket_close network_dial network_close
          (calls graylog (one deleted ∷ many events ∷ []) connected)).0.world.live
        ≡ [])
calls-Holds_example =
    calls-Holds graylog (one deleted ∷ many events ∷ []) connected (refl, omega arith)

gelf_fields-IsGelf_example : IsGelf deleted (gelf_fields deleted)
gelf_fields-IsGelf_example = gelf_fields-IsGelf deleted
