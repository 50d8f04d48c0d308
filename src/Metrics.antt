-- ===== src/Metrics.antt =====
-- pkg/metrics/metrics.go: the counters, the two event breakdowns and the peer table. An atomic
-- int64 is its bit pattern. The locks are not state: each function is one critical section, or
-- (`record_event`) a read followed by atomic additions to counters that are never removed.
pub mod Breakdown
pub mod Series
pub mod Snapshot
pub mod Peers
pub mod Reached
use cee_exporter.Common.{
  ℕ, ◌+◌, ◌≡◌, ◌↔◌, Bool, true, false, not, ◌&&◌, ◌||◌, Option, none, some, List, [], ◌∷◌, map,
  arith, leb, ltb, ◌==◌, if◌then◌else◌, length, Bytes, bytes_eq, bytes_eq_iff, add64,
}
use cee_exporter.Common.Assoc.{Key, Assoc, bytes_key, lookup, adjust, add_entry}

abbrev pub max_event_labels : ℕ
max_event_labels = 128

abbrev pub max_peers : ℕ
max_peers = 64

pub record EventTypeKey : Type 0 where
  pub event_type : Bytes
  pub protocol : Bytes

pub key_eq : EventTypeKey → EventTypeKey → Bool
key_eq a b = bytes_eq a.event_type b.event_type && bytes_eq a.protocol b.protocol

pub key_eq_iff : (a b : EventTypeKey) → (key_eq a b ≡ true) ↔ (a ≡ b)
unfolding key_eq
key_eq_iff a b =
    ground (arith, bytes_eq_iff a.event_type b.event_type, bytes_eq_iff a.protocol b.protocol)

instance abbrev pub event_type_key : Key EventTypeKey
event_type_key = record { same = key_eq; same_iff = key_eq_iff }

-- peerStat, and its copy PeerStat
pub record PeerStat : Type 0 where
  pub last_request_unix : ℕ
  pub registrations : ℕ
  pub heartbeats : ℕ

pub record Store : Type 0 where
  pub events_received_total : ℕ
  pub events_written_total : ℕ
  pub events_dropped_total : ℕ
  pub writer_errors_total : ℕ
  pub writer_batches_total : ℕ
  pub writer_batch_errors_total : ℕ
  pub requests_throttled_total : ℕ
  pub events_truncated_total : ℕ
  pub queue_depth : ℕ
  pub last_event_at : ℕ
  pub last_fsync_at : ℕ
  pub peers : Assoc Bytes PeerStat
  pub peers_dropped : ℕ
  pub events_by_type : Assoc EventTypeKey ℕ
  pub events_by_server : Assoc Bytes ℕ
  pub event_labels_dropped : ℕ

-- &Store{}
abbrev pub zero_store : Store
zero_store = record {
  events_received_total = 0;
  events_written_total = 0;
  events_dropped_total = 0;
  writer_errors_total = 0;
  writer_batches_total = 0;
  writer_batch_errors_total = 0;
  requests_throttled_total = 0;
  events_truncated_total = 0;
  queue_depth = 0;
  last_event_at = 0;
  last_fsync_at = 0;
  peers = [];
  peers_dropped = 0;
  events_by_type = [];
  events_by_server = [];
  event_labels_dropped = 0;
}

abbrev is_some {ℓ} : {A : Type ℓ} → Option A → Bool
is_some none = false
is_some (some a) = true

abbrev bump : ℕ → ℕ
bump c = add64 c 1

-- The map after the call, and whether the increment was discarded.
unfoldable pub bump_label {ℓ} : {K : Type ℓ} ⦃e : Key K⦄ → Assoc K ℕ → K → Assoc K ℕ × Bool
bump_label m k = elim (lookup k m) [
  | some c ↦ (adjust k bump m, false)
  | none ↦ if leb max_event_labels (length m) then (m, true) else (add_entry k 1 m, false)
]

-- The part of `recordBreakdown` under the write lock.
unfoldable pub record_slow : EventTypeKey → Bytes → Store → Store
unfolding bump_label
record_slow k server s =
    let want_server = not (bytes_eq server []) in
    let (by_type, type_dropped) = bump_label s.events_by_type k in
    let (by_server, server_dropped) =
      (if want_server then bump_label s.events_by_server server else (s.events_by_server, false)) in
    let dropped = (if type_dropped then 1 else 0) + (if server_dropped then 1 else 0) in
    record s {
      events_by_type = by_type;
      events_by_server = by_server;
      event_labels_dropped =
          (if ltb 0 dropped then add64 s.event_labels_dropped dropped else s.event_labels_dropped);
    }

-- The part of `recordBreakdown` that only touches atomics.
unfoldable pub record_fast : EventTypeKey → Bytes → Store → Store
record_fast k server s =
    let want_server = not (bytes_eq server []) in
    let seen_type = is_some (lookup k s.events_by_type) in
    let seen_server = is_some (lookup server s.events_by_server) in
    let dropped =
      (if seen_type then 0 else 1) + (if want_server && not seen_server then 1 else 0) in
    record s {
      events_by_type = (if seen_type then adjust k bump s.events_by_type else s.events_by_type);
      events_by_server =
          (if want_server && seen_server
            then adjust server bump s.events_by_server
            else s.events_by_server);
      event_labels_dropped =
          (if ltb 0 dropped then add64 s.event_labels_dropped dropped else s.event_labels_dropped);
    }

unfoldable pub record_breakdown : EventTypeKey → Bytes → Store → Store
record_breakdown k server s =
    let want_server = not (bytes_eq server []) in
    let seen_type = is_some (lookup k s.events_by_type) in
    let type_full = leb max_event_labels (length s.events_by_type) in
    let seen_server = is_some (lookup server s.events_by_server) in
    let server_full = leb max_event_labels (length s.events_by_server) in
    if (seen_type || type_full) && (not want_server || seen_server || server_full)
    then record_fast k server s
    else record_slow k server s

unfoldable pub record_event : Bytes → Bytes → Bytes → Store → Store
unfolding record_breakdown
record_event event_type protocol server s =
    record_breakdown (record { event_type = event_type; protocol = protocol }) server s

pub reset_event_breakdown : Store → Store
reset_event_breakdown s = record s {
  events_by_type = [];
  events_by_server = [];
  event_labels_dropped = 0;
}

abbrev pub set_queue_depth : ℕ → Store → Store
set_queue_depth n s = record s { queue_depth = n }

-- `now` is the clock's reading, in Unix nanoseconds.
abbrev pub record_event_at : ℕ → Store → Store
record_event_at now s = record s { last_event_at = now }

abbrev pub record_fsync_at : ℕ → Store → Store
record_fsync_at unix s = record s { last_fsync_at = unix }

unfoldable pub record_peer_request_at : Bytes → ℕ → Store → Store
record_peer_request_at host unix s = elim (lookup host s.peers) [
  | some p ↦ record s {
    peers = adjust host (λ (p : PeerStat). record p { last_request_unix = unix }) s.peers;
  }
  | none ↦
      if leb max_peers (length s.peers)
      then record s { peers_dropped = add64 s.peers_dropped 1 }
      else record s {
        peers =
            add_entry host (record { last_request_unix = unix; registrations = 0; heartbeats = 0 })
              s.peers;
      }
]

-- `adjust` changes nothing where the host is absent.
unfoldable pub record_peer_registration : Bytes → Store → Store
record_peer_registration host s = record s {
  peers = adjust host (λ (p : PeerStat). record p { registrations = bump p.registrations }) s.peers;
}

unfoldable pub record_peer_heartbeat : Bytes → Store → Store
record_peer_heartbeat host s = record s {
  peers = adjust host (λ (p : PeerStat). record p { heartbeats = bump p.heartbeats }) s.peers;
}

pub reset_peers : Store → Store
reset_peers s = record s { peers = []; peers_dropped = 0 }
