-- ===== src/Prometheus/Cardinality.antt =====
-- How many series a scrape of pkg/prometheus/handler.go has, and that no two of them are the same.
use cee_exporter.Common.{
  ◌+◌, ◌*◌, ◌≤◌, ◌≡◌, refl, List, [], ◌∷◌, ◌++◌, arith, Bytes, length, length-append, map,
}
use cee_exporter.Common.Assoc.{Assoc, bytes_key}
use cee_exporter.Metrics.{event_type_key, PeerStat, Store}
use cee_exporter.Metrics.Snapshot.{event_type_snapshot, event_server_snapshot}
use cee_exporter.Metrics.Reached.{Reached, Reached-IsBounded}
use cee_exporter.Prometheus.{
  scalars, collect_peers, collect_types, collect_servers, collect, build_info, scrape,
}
use cee_exporter.Prometheus.Families.{Apart, Within, All-append, All-widen, Apart-append}
use cee_exporter.Prometheus.Blocks.{
  collect-Within, collect-Apart, scalars-Within, scalars-Apart, build-Within,
}

length-map {ℓ κ} :
    {A : Type ℓ} {B : Type κ} (f : A → B) (xs : List A) → length (map f xs) ≡ length xs
length-map f [] = refl
length-map f (x ∷ xs) = omega (arith, length-map f xs)

length-collect_peers :
    (peers : Assoc Bytes PeerStat) → length (collect_peers peers) ≡ 3 * length peers
unfolding collect_peers
length-collect_peers [] = refl
length-collect_peers ((host, p) ∷ peers) = omega (arith, length-collect_peers peers)

length-collect :
    (s : Store)
    → length (collect s)
      ≡ 3 * length s.peers + (length s.events_by_type + length s.events_by_server)
unfolding collect collect_types collect_servers event_type_snapshot event_server_snapshot
length-collect s =
    rw
      (
        length-append, length-append, length-collect_peers, length-map, length-map, length-map,
        length-map,
      )
      (omega arith)

length-scrape :
    (version go_version : Bytes) (s : Store)
    → length (scrape version go_version s)
      ≡ 14 + 3 * length s.peers + length s.events_by_type + length s.events_by_server
unfolding scrape scalars
length-scrape version go_version s =
    omega (arith, length-append (collect s) (build_info version go_version ∷ []), length-collect s)

-- Whatever operations the store has gone through, a scrape of it has no series twice, so the
-- registry gathers it without a collision, and at most 14 + 3 * 64 + 2 * 128 = 462 series, whatever
-- publishers and events there were.
pub scrape-bounded :
    (version go_version : Bytes) {s : Store}
    → Reached s
    → Apart (scrape version go_version s) × (length (scrape version go_version s) ≤ 462)
unfolding scrape
scrape-bounded version go_version {s} r =
    let h = Reached-IsBounded r in
    (
      Apart-append (scalars s ++ collect s) (build_info version go_version ∷ []) 0 17 18 18
          (ground arith)
          (All-append (Within 0 17) (scalars s) (collect s)
            (All-widen 0 0 0 17 _ (ground arith) (ground arith) (scalars-Within s))
            (All-widen 13 17 0 17 _ (ground arith) (ground arith) (collect-Within s)))
          (build-Within version go_version, tt)
          (Apart-append (scalars s) (collect s) 0 0 13 17 (ground arith) (scalars-Within s)
            (collect-Within s) (scalars-Apart s) (collect-Apart s h))
          (tt, tt),
      omega (arith, length-scrape version go_version s, h.by_type, h.by_server, h.by_peer),
    )
