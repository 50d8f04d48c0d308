-- ===== src/Tests/Stores.antt =====
-- pkg/metrics after a few events and requests.
use Prim.Native.Nat.{◌+◌, ◌≤◌, ◌%◌, ◌^◌}
use cee_exporter.Common.{◌≡◌, refl, some, List, [], ◌∷◌, codes, length, bytes_eq, arith, Bytes, map}
use cee_exporter.Common.Assoc.{lookup, bytes_key}
use cee_exporter.Metrics.{
  Store, EventTypeKey, event_type_key, PeerStat, zero_store, record_breakdown, record_slow,
  record_event,
}
use cee_exporter.Metrics.Breakdown.{
  record_breakdown-eq-slow, Seen, record_all, accounted, named, key_of,
}
use cee_exporter.Metrics.Series.{record_all-Counted, Counted, times, servers_of}
use cee_exporter.Metrics.Reached.{Reached, initial, event, peer}
use cee_exporter.Prometheus.{scrape}
use cee_exporter.Prometheus.Families.{Apart}
use cee_exporter.Prometheus.Cardinality.{scrape-bounded}
use cee_exporter.Metrics.Peers.{apply, request, registration}

abbrev write_key : EventTypeKey
write_key = record { event_type = codes "CEPP_FILE_WRITE"; protocol = codes "NFS" }

abbrev seen : List Seen
seen =
    record { event_type = codes "CEPP_FILE_WRITE"; protocol = codes "NFS"; server = codes "nas" }
    ∷ record { event_type = codes "CEPP_FILE_WRITE"; protocol = codes "NFS"; server = [] }
    ∷ []

abbrev counted : Store
counted = record zero_store { events_by_type = (write_key, 3) ∷ [] }

abbrev cluster : PeerStat
cluster = record { last_request_unix = 1; registrations = 0; heartbeats = 0 }

abbrev known : Store
known = record zero_store { peers = (codes "nas", cluster) ∷ [] }

record_breakdown-eq-slow_example :
    record_breakdown write_key (codes "nas") counted ≡ record_slow write_key (codes "nas") counted
record_breakdown-eq-slow_example = record_breakdown-eq-slow write_key (codes "nas") counted

record_all-Counted_example :
    ((k : EventTypeKey)
      → Counted k
          (times k (map key_of seen))
          counted.events_by_type
          (record_all seen counted).events_by_type)
    × ((b : Bytes)
        → Counted b
            (times b (servers_of seen))
            counted.events_by_server
            (record_all seen counted).events_by_server)
    × (accounted (record_all seen counted) % 2 ^ 64
        ≡ (accounted counted + length seen + named seen) % 2 ^ 64)
record_all-Counted_example = record_all-Counted seen counted

holds_three : lookup write_key counted.events_by_type ≡ some 3
unfolding lookup
holds_three = ground (arith, event_type_key.same_iff write_key write_key)

knows : lookup (codes "nas") known.peers ≡ some cluster
unfolding lookup bytes_eq codes
knows = refl

-- A publisher's request and registration, and an event that it delivered.
visited : Reached (
    record_event
      (codes "CEPP_FILE_WRITE")
      (codes "NFS")
      (codes "nas")
      (apply (registration (codes "host")) (apply (request (codes "host") 9) zero_store)))
visited =
    event (codes "CEPP_FILE_WRITE") (codes "NFS") (codes "nas")
      (peer (registration (codes "host")) (peer (request (codes "host") 9) initial))

abbrev visit : Store
visit =
    record_event (codes "CEPP_FILE_WRITE") (codes "NFS") (codes "nas")
      (apply (registration (codes "host")) (apply (request (codes "host") 9) zero_store))

scrape-bounded_example :
    Apart (scrape (codes "1.0") (codes "go1") visit)
    × (length (scrape (codes "1.0") (codes "go1") visit) ≤ 462)
scrape-bounded_example = scrape-bounded (codes "1.0") (codes "go1") visited
