-- ===== src/Metrics/Reached.antt =====
-- The stores that the operations of pkg/metrics/metrics.go reach from an empty one.
use cee_exporter.Common.{
  ℕ, ◌≤◌, ◌≡◌, Bool, not, inl, inr, refl, arith, Bytes, [], bytes_eq, length, leb, if-both,
  Option-cases, add64,
}
use cee_exporter.Common.Assoc.{Key, Assoc, bytes_key, lookup, IsMap, adjust-IsMap, add_entry-IsMap}
use cee_exporter.Metrics.{
  max_event_labels, max_peers, EventTypeKey, event_type_key, PeerStat, Store, zero_store,
  bump_label, record_slow, record_event, reset_event_breakdown, record_peer_request_at,
  record_peer_registration, record_peer_heartbeat, reset_peers,
}
use cee_exporter.Metrics.Breakdown.{record_breakdown-eq-slow, record_slow-IsCapped}
use cee_exporter.Metrics.Peers.{PeerCall, request, registration, heartbeat, apply, apply-length}

-- The last rule is for the operations on plain counters and timestamps.
pub data Reached : Store → Type 0 where
  initial : Reached zero_store
  event :
      (event_type protocol server : Bytes) {s : Store}
      → Reached s
      → Reached (record_event event_type protocol server s)
  peer : (c : PeerCall) {s : Store} → Reached s → Reached (apply c s)
  reset_events : {s : Store} → Reached s → Reached (reset_event_breakdown s)
  reset_publishers : {s : Store} → Reached s → Reached (reset_peers s)
  count :
      {s : Store} (t : Store)
      → t.peers ≡ s.peers
      → t.events_by_type ≡ s.events_by_type
      → t.events_by_server ≡ s.events_by_server
      → Reached s
      → Reached t

-- The maps have distinct keys and are within their caps.
pub record IsBounded (s : Store) : Type 0 where
  pub by_type : length s.events_by_type ≤ max_event_labels
  pub by_server : length s.events_by_server ≤ max_event_labels
  pub by_peer : length s.peers ≤ max_peers
  pub types_map : IsMap s.events_by_type
  pub servers_map : IsMap s.events_by_server
  pub peers_map : IsMap s.peers

bump_label-IsMap {ℓ} :
    {K : Type ℓ} ⦃e : Key K⦄ (m : Assoc K ℕ) (k : K) → IsMap m → IsMap (bump_label m k).0
unfolding bump_label
bump_label-IsMap {K = K} m k h = elim (Option-cases (lookup k m)) [
  | inr (c, l) ↦ rw (l, bump_label) (adjust-IsMap k (λ (c : ℕ). add64 c 1) m h)
  | inl n ↦
      rw (n, bump_label)
        (if-both (λ (p : Assoc K ℕ × Bool). IsMap p.0) (leb max_event_labels (length m)) _ _ h
          (add_entry-IsMap k 1 m n h))
]

event-IsBounded :
    (k : EventTypeKey) (server : Bytes) (s : Store)
    → IsBounded s
    → IsBounded (record_slow k server s)
unfolding record_slow
event-IsBounded k server s h =
    let c =
      record_slow-IsCapped k server {s = s}
        (record { by_type = h.by_type; by_server = h.by_server }) in
    record {
      by_type = c.by_type;
      by_server = c.by_server;
      by_peer = h.by_peer;
      types_map = bump_label-IsMap s.events_by_type k h.types_map;
      servers_map =
          if-both (λ (p : Assoc Bytes ℕ × Bool). IsMap p.0) (not (bytes_eq server [])) _ _
            (bump_label-IsMap s.events_by_server server h.servers_map) h.servers_map;
      peers_map = h.peers_map;
    }

apply-IsMap : (c : PeerCall) (s : Store) → IsMap s.peers → IsMap (apply c s).peers
unfolding apply record_peer_request_at record_peer_registration record_peer_heartbeat
apply-IsMap (registration host) s h = adjust-IsMap host _ s.peers h
apply-IsMap (heartbeat host) s h = adjust-IsMap host _ s.peers h
apply-IsMap (request host unix) s h = elim (Option-cases (lookup host s.peers)) [
  | inr (p, l) ↦
      rw (l, apply, record_peer_request_at)
        (adjust-IsMap host (λ (p : PeerStat). record p { last_request_unix = unix }) s.peers h)
  | inl n ↦
      rw (n, apply, record_peer_request_at)
        (if-both (λ (t : Store). IsMap t.peers) (leb max_peers (length s.peers)) _ _ h
          (add_entry-IsMap host _ s.peers n h))
]

-- A call on the peer table leaves the breakdowns alone.
apply-types : (c : PeerCall) (s : Store) → (apply c s).events_by_type ≡ s.events_by_type
unfolding apply record_peer_request_at record_peer_registration record_peer_heartbeat
apply-types (request host unix) s = ground arith
apply-types (registration host) s = refl
apply-types (heartbeat host) s = refl

apply-servers : (c : PeerCall) (s : Store) → (apply c s).events_by_server ≡ s.events_by_server
unfolding apply record_peer_request_at record_peer_registration record_peer_heartbeat
apply-servers (request host unix) s = ground arith
apply-servers (registration host) s = refl
apply-servers (heartbeat host) s = refl

apply-IsBounded : (c : PeerCall) (s : Store) → IsBounded s → IsBounded (apply c s)
apply-IsBounded c s h = record {
  by_type = rw (apply-types c s) h.by_type;
  by_server = rw (apply-servers c s) h.by_server;
  by_peer = apply-length c s h.by_peer;
  types_map = rw (apply-types c s) h.types_map;
  servers_map = rw (apply-servers c s) h.servers_map;
  peers_map = apply-IsMap c s h.peers_map;
}

-- Whatever sequence of its operations the store has gone through, each of its three maps is within
-- its cap and has no key twice.
pub Reached-IsBounded : {s : Store} → Reached s → IsBounded s
unfolding record_event reset_event_breakdown reset_peers apply record_peer_request_at
    record_peer_registration record_peer_heartbeat
Reached-IsBounded initial = record {
  by_type = ground arith;
  by_server = ground arith;
  by_peer = ground arith;
  types_map = tt;
  servers_map = tt;
  peers_map = tt;
}
Reached-IsBounded (event t p server {s} r) =
    rw (record_breakdown-eq-slow (record { event_type = t; protocol = p }) server s)
      (event-IsBounded (record { event_type = t; protocol = p }) server s (Reached-IsBounded r))
Reached-IsBounded (peer c {s} r) = apply-IsBounded c s (Reached-IsBounded r)
Reached-IsBounded (reset_events {s} r) =
    let h = Reached-IsBounded r in
    record {
      by_type = ground arith;
      by_server = ground arith;
      by_peer = h.by_peer;
      types_map = tt;
      servers_map = tt;
      peers_map = h.peers_map;
    }
Reached-IsBounded (reset_publishers {s} r) =
    let h = Reached-IsBounded r in
    record {
      by_type = h.by_type;
      by_server = h.by_server;
      by_peer = ground arith;
      types_map = h.types_map;
      servers_map = h.servers_map;
      peers_map = tt;
    }
Reached-IsBounded (count {s} t e f g r) =
    let h = Reached-IsBounded r in
    record {
      by_type = rw f h.by_type;
      by_server = rw g h.by_server;
      by_peer = rw e h.by_peer;
      types_map = rw f h.types_map;
      servers_map = rw g h.servers_map;
      peers_map = rw e h.peers_map;
    }
