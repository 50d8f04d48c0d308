-- ===== src/Prometheus/Blocks.antt =====
-- The series of a scrape (pkg/prometheus/handler.go) in three blocks: the scalars, those of the
-- collector, the build.
use cee_exporter.Common.{
  ◌≡◌, refl, true, ◌&&◌, List, [], ◌∷◌, ◌++◌, arith, Bytes, codes, bytes_eq, All, every, Bool, not,
}
use cee_exporter.Common.Assoc.{bytes_key}
use cee_exporter.Metrics.{event_type_key, Store}
use cee_exporter.Metrics.Snapshot.{event_type_snapshot, event_server_snapshot}
use cee_exporter.Metrics.Reached.{IsBounded}
use cee_exporter.Prometheus.{
  Series, scalars, collect_peers, collect_types, collect_servers, collect, build_info,
}
use cee_exporter.Prometheus.Families.{
  Differ, Apart, Within, place, bytes_differ, All-append, All-widen, Apart-append, peers-Within,
  types-Within, servers-Within, peers-Apart, types-Apart, servers-Apart,
}

labelled-Within :
    (s : Store)
    → All (Within 13 16) (collect_peers s.peers ++ collect_types (event_type_snapshot s))
labelled-Within s =
    All-append (Within 13 16) (collect_peers s.peers) (collect_types (event_type_snapshot s))
      (All-widen 13 15 13 16 _ (ground arith) (ground arith) (peers-Within s.peers))
      (All-widen 16 16 13 16 _ (ground arith) (ground arith) (types-Within (event_type_snapshot s)))

pub collect-Within : (s : Store) → All (Within 13 17) (collect s)
unfolding collect
collect-Within s =
    All-append (Within 13 17) (collect_peers s.peers ++ collect_types (event_type_snapshot s))
      (collect_servers (event_server_snapshot s))
      (All-widen 13 16 13 17 _ (ground arith) (ground arith) (labelled-Within s))
      (All-widen 17 17 13 17 _ (ground arith) (ground arith)
        (servers-Within (event_server_snapshot s)))

pub collect-Apart : (s : Store) → IsBounded s → Apart (collect s)
unfolding collect event_type_snapshot event_server_snapshot
collect-Apart s h =
    Apart-append (collect_peers s.peers ++ collect_types (event_type_snapshot s))
      (collect_servers (event_server_snapshot s)) 13 16 17 17 (ground arith) (labelled-Within s)
      (servers-Within (event_server_snapshot s))
      (Apart-append (collect_peers s.peers) (collect_types (event_type_snapshot s)) 13 15 16 16
        (ground arith) (peers-Within s.peers) (types-Within (event_type_snapshot s))
        (peers-Apart s.peers h.peers_map) (types-Apart s.events_by_type h.types_map))
      (servers-Apart s.events_by_server h.servers_map)

abbrev names_distinct : List Series → Bool
names_distinct [] = true
names_distinct (x ∷ xs) =
    every (λ (y : Series). not (bytes_eq x.name y.name)) xs && names_distinct xs

every-Differ :
    (x : Series) (xs : List Series)
    → every (λ (y : Series). not (bytes_eq x.name y.name)) xs ≡ true
    → All (Differ x) xs
every-Differ x [] h = tt
every-Differ x (y ∷ xs) h =
    (λ e _. bytes_differ x.name y.name (ground arith) e, every-Differ x xs (ground arith))

names-Apart : (xs : List Series) → names_distinct xs ≡ true → Apart xs
names-Apart [] h = tt
names-Apart (x ∷ xs) h = (every-Differ x xs (ground arith), names-Apart xs (ground arith))

pub scalars-Within : (s : Store) → All (Within 0 0) (scalars s)
unfolding scalars place codes bytes_eq
scalars-Within s = ground arith

pub scalars-Apart : (s : Store) → Apart (scalars s)
unfolding scalars codes bytes_eq
scalars-Apart s = names-Apart (scalars s) refl

pub build-Within : (version go_version : Bytes) → Within 18 18 (build_info version go_version)
unfolding build_info place codes bytes_eq
build-Within version go_version = ground arith
