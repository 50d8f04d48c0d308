-- ===== src/Prometheus.antt =====
-- pkg/prometheus/handler.go: the families of the registry and the series of a scrape. The client
-- library and the HTTP server are not modelled: a registry is the list of what was registered.
pub mod Families
pub mod Blocks
pub mod Cardinality
use cee_exporter.Common.{ℕ, List, [], ◌∷◌, ◌++◌, map, Bytes, codes, ℤ, pos}
use cee_exporter.Common.Assoc.{Assoc}
use cee_exporter.Metrics.{PeerStat, Store}
use cee_exporter.Metrics.Snapshot.{
  to_int64, EventTypeStat, EventServerStat, event_type_snapshot, event_server_snapshot,
  peer_snapshot, last_event_unix, queue_depth, last_fsync_unix, event_labels_dropped, peers_dropped,
}

pub data Kind : Type 0 where
  counter : Kind
  gauge : Kind

-- A series with the integer that the code converts to float64, and its labels by name.
pub record Series : Type 0 where
  pub name : Bytes
  pub kind : Kind
  pub labels : Assoc Bytes Bytes
  pub sample : ℤ

abbrev scalar : Bytes → Kind → ℤ → Series
scalar name kind sample = record { name = name; kind = kind; labels = []; sample = sample }

-- The scalar collectors of newRegistry.
unfoldable pub scalars : Store → List Series
scalars s =
    scalar (codes "cee_events_received_total") counter (to_int64 s.events_received_total)
    ∷ scalar (codes "cee_events_dropped_total") counter (to_int64 s.events_dropped_total)
    ∷ scalar (codes "cee_writer_errors_total") counter (to_int64 s.writer_errors_total)
    ∷ scalar (codes "cee_writer_batches_total") counter (to_int64 s.writer_batches_total)
    ∷ scalar (codes "cee_writer_batch_errors_total") counter (to_int64 s.writer_batch_errors_total)
    ∷ scalar (codes "cee_queue_depth") gauge (queue_depth s)
    ∷ scalar (codes "cee_events_written_total") counter (to_int64 s.events_written_total)
    ∷ scalar (codes "cee_last_fsync_unix_seconds") gauge (last_fsync_unix s)
    ∷ scalar (codes "cee_last_event_unix_seconds") gauge (last_event_unix s)
    ∷ scalar (codes "cee_events_truncated_total") counter (to_int64 s.events_truncated_total)
    ∷ scalar (codes "cee_cepa_peers_dropped_total") counter (peers_dropped s)
    ∷ scalar (codes "cee_event_labels_dropped_total") counter (event_labels_dropped s)
    ∷ scalar (codes "cee_requests_throttled_total") counter (to_int64 s.requests_throttled_total)
    ∷ []

-- A Desc: its name and the names of its variable labels.
pub record Desc : Type 0 where
  pub name : Bytes
  pub variable_labels : List Bytes

unfoldable pub cepa_last_request_desc : Desc
cepa_last_request_desc = record {
  name = codes "cee_cepa_last_request_unix_seconds";
  variable_labels = codes "remote" ∷ [];
}

unfoldable pub cepa_registrations_desc : Desc
cepa_registrations_desc = record {
  name = codes "cee_cepa_registrations_total";
  variable_labels = codes "remote" ∷ [];
}

unfoldable pub events_by_type_desc : Desc
events_by_type_desc = record {
  name = codes "cee_events_by_type_total";
  variable_labels = codes "event_type" ∷ codes "protocol" ∷ [];
}

unfoldable pub events_by_server_desc : Desc
events_by_server_desc = record {
  name = codes "cee_events_by_server_total";
  variable_labels = codes "server" ∷ [];
}

unfoldable pub cepa_heartbeats_desc : Desc
cepa_heartbeats_desc = record {
  name = codes "cee_cepa_heartbeats_total";
  variable_labels = codes "remote" ∷ [];
}

abbrev pub describe : List Desc
describe =
    cepa_last_request_desc ∷ cepa_registrations_desc ∷ cepa_heartbeats_desc ∷ events_by_type_desc
    ∷ events_by_server_desc ∷ []

-- The names of the labels with their values, in order.
abbrev label_pairs : List Bytes → List Bytes → Assoc Bytes Bytes
label_pairs [] vs = []
label_pairs (n ∷ ns) [] = []
label_pairs (n ∷ ns) (v ∷ vs) = (n, v) ∷ label_pairs ns vs

-- prometheus.MustNewConstMetric
unfoldable pub const_metric : Desc → Kind → ℤ → List Bytes → Series
const_metric d kind sample values = record {
  name = d.name;
  kind = kind;
  labels = label_pairs d.variable_labels values;
  sample = sample;
}

unfoldable pub collect_peers : Assoc Bytes PeerStat → List Series
collect_peers [] = []
collect_peers ((host, p) ∷ peers) =
    const_metric cepa_last_request_desc gauge (to_int64 p.last_request_unix) (host ∷ [])
    ∷ const_metric cepa_registrations_desc counter (to_int64 p.registrations) (host ∷ [])
    ∷ const_metric cepa_heartbeats_desc counter (to_int64 p.heartbeats) (host ∷ [])
    ∷ collect_peers peers

unfoldable pub collect_types : List EventTypeStat → List Series
collect_types = map (λ (e : EventTypeStat).
    const_metric events_by_type_desc counter e.count (e.event_type ∷ e.protocol ∷ []))

unfoldable pub collect_servers : List EventServerStat → List Series
collect_servers =
    map
      (λ (e : EventServerStat). const_metric events_by_server_desc counter e.count (e.server ∷ []))

unfoldable pub collect : Store → List Series
collect s =
    collect_peers (peer_snapshot s)
    ++ collect_types (event_type_snapshot s)
    ++ collect_servers (event_server_snapshot s)

-- The gauge of NewMetricsHandlerWithBuildInfo.
unfoldable pub build_info : Bytes → Bytes → Series
build_info version go_version = record {
  name = codes "cee_build_info";
  kind = gauge;
  labels = (codes "version", version) ∷ (codes "go_version", go_version) ∷ [];
  sample = pos 1;
}

-- What one scrape of /metrics exposes.
unfoldable pub scrape : Bytes → Bytes → Store → List Series
scrape version go_version s = scalars s ++ collect s ++ build_info version go_version ∷ []
