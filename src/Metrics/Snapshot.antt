-- ===== src/Metrics/Snapshot.antt =====
-- The copies that pkg/metrics/metrics.go hands out: the breakdowns, the peer table, the counters.
use cee_exporter.Common.{
  ℕ, ◌-◌, ◌^◌, Option, none, some, List, map, ltb, ◌==◌, if◌then◌else◌, Bytes, ℤ, pos, negsuc,
  floor_div,
}
use cee_exporter.Common.Assoc.{Assoc}
use cee_exporter.Metrics.{EventTypeKey, PeerStat, Store}

-- The int64 that a bit pattern stands for.
abbrev pub to_int64 : ℕ → ℤ
to_int64 n = if ltb n (2 ^ 63) then pos n else negsuc (2 ^ 64 - 1 - n)

pub record EventTypeStat : Type 0 where
  pub event_type : Bytes
  pub protocol : Bytes
  pub count : ℤ

pub record EventServerStat : Type 0 where
  pub server : Bytes
  pub count : ℤ

-- The entries of a map in the order of an iteration, which Go leaves open.
unfoldable pub event_type_snapshot : Store → List EventTypeStat
event_type_snapshot s =
    map
      (λ ((k, c) : EventTypeKey × ℕ). record {
        event_type = k.event_type;
        protocol = k.protocol;
        count = to_int64 c;
      })
      s.events_by_type

unfoldable pub event_server_snapshot : Store → List EventServerStat
event_server_snapshot s =
    map (λ ((k, c) : Bytes × ℕ). record { server = k; count = to_int64 c }) s.events_by_server

-- A copy of the peer table: values are immutable here, so the copy is the table.
abbrev pub peer_snapshot : Store → Assoc Bytes PeerStat
peer_snapshot s = s.peers

-- The Unix nanoseconds of the last event; `none` is the zero time.
abbrev pub last_event_at : Store → Option ℕ
last_event_at s = if s.last_event_at == 0 then none else some s.last_event_at

-- time.Unix(0, ns).Unix() is the seconds, rounded down.
abbrev pub last_event_unix : Store → ℤ
last_event_unix s = elim (last_event_at s) [
  | none ↦ pos 0
  | some ns ↦ floor_div (to_int64 ns) (10 ^ 9)
]

-- The loads of the counters that a scrape or the health endpoint reads.
abbrev pub queue_depth : Store → ℤ
queue_depth s = to_int64 s.queue_depth

abbrev pub last_fsync_unix : Store → ℤ
last_fsync_unix s = to_int64 s.last_fsync_at

abbrev pub event_labels_dropped : Store → ℤ
event_labels_dropped s = to_int64 s.event_labels_dropped

abbrev pub peers_dropped : Store → ℤ
peers_dropped s = to_int64 s.peers_dropped

pub record Snapshot : Type 0 where
  pub events_received_total : ℤ
  pub events_written_total : ℤ
  pub events_dropped_total : ℤ
  pub writer_errors_total : ℤ
  pub events_truncated_total : ℤ
  pub queue_depth : ℤ
  pub last_event_at : Option ℕ
  pub last_fsync_unix : ℤ

abbrev pub snapshot : Store → Snapshot
snapshot s = record {
  events_received_total = to_int64 s.events_received_total;
  events_written_total = to_int64 s.events_written_total;
  events_dropped_total = to_int64 s.events_dropped_total;
  writer_errors_total = to_int64 s.writer_errors_total;
  events_truncated_total = to_int64 s.events_truncated_total;
  queue_depth = queue_depth s;
  last_event_at = last_event_at s;
  last_fsync_unix = last_fsync_unix s;
}
