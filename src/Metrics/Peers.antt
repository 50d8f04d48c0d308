-- ===== src/Metrics/Peers.antt =====
-- The peer table of pkg/metrics/metrics.go.
use cee_exporter.Common.{
  ℕ, ◌≤◌, ◌≡◌, Bool, false, Option, none, some, List, [], ◌∷◌, arith, leb, if◌then◌else◌, length,
  Bytes, bytes_eq, bytes_eq_iff, add64,
}
use cee_exporter.Common.Assoc.{
  bytes_key, lookup, lookup-adjust, lookup-add_entry, length-adjust, length-add_entry,
}
use cee_exporter.Metrics.{
  max_peers, PeerStat, Store, record_peer_request_at, record_peer_registration,
  record_peer_heartbeat,
}

-- The three ways the peer table changes while the exporter runs.
pub data PeerCall : Type 0 where
  request : Bytes → ℕ → PeerCall
  registration : Bytes → PeerCall
  heartbeat : Bytes → PeerCall

unfoldable pub apply : PeerCall → Store → Store
apply (request host unix) s = record_peer_request_at host unix s
apply (registration host) s = record_peer_registration host s
apply (heartbeat host) s = record_peer_heartbeat host s

unfoldable pub apply_all : List PeerCall → Store → Store
apply_all [] s = s
apply_all (c ∷ cs) s = apply_all cs (apply c s)

pub apply-length :
    (c : PeerCall) (s : Store) → length s.peers ≤ max_peers → length (apply c s).peers ≤ max_peers
unfolding apply record_peer_request_at record_peer_registration record_peer_heartbeat
apply-length (request host unix) s h = ground (
  arith,
  length-adjust host (λ (p : PeerStat). record p { last_request_unix = unix }) s.peers,
  length-add_entry host (record { last_request_unix = unix; registrations = 0; heartbeats = 0 })
      s.peers,
)
apply-length (registration host) s h = rw length-adjust h
apply-length (heartbeat host) s h = rw length-adjust h

-- Whatever publishers do, the peer table holds at most `MaxPeers` hosts.
pub apply_all-length :
    (cs : List PeerCall) (s : Store)
    → length s.peers ≤ max_peers
    → length (apply_all cs s).peers ≤ max_peers
unfolding apply_all
apply_all-length [] s h = h
apply_all-length (c ∷ cs) s h = apply_all-length cs _ (apply-length c s h)

-- What a request leaves for its own host: the stamped entry, a fresh one, or nothing at the cap.
abbrev pub stamped : Bytes → ℕ → Store → Option PeerStat
stamped host unix s = elim (lookup host s.peers) [
  | some p ↦ some (record p { last_request_unix = unix })
  | none ↦
      if leb max_peers (length s.peers)
      then none
      else some (record { last_request_unix = unix; registrations = 0; heartbeats = 0 })
]

abbrev pub is_refused : Bytes → Store → Bool
is_refused host s = elim (lookup host s.peers) [
  | some p ↦ false
  | none ↦ leb max_peers (length s.peers)
]

-- A request stamps its own host, creating it below the cap, and changes no other host; a host
-- refused at the cap is counted, and only such a host is.
pub record_peer_request_at_lem :
    (host j : Bytes) (unix : ℕ) (s : Store)
    → (lookup j (record_peer_request_at host unix s).peers
        ≡ (if bytes_eq host j then stamped host unix s else lookup j s.peers))
      × ((record_peer_request_at host unix s).peers_dropped
          ≡ (if is_refused host s then add64 s.peers_dropped 1 else s.peers_dropped))
unfolding record_peer_request_at
record_peer_request_at_lem host j unix s = (
  ground (
    arith,
    lookup-adjust host j (λ (p : PeerStat). record p { last_request_unix = unix }) s.peers,
    lookup-add_entry host j (record { last_request_unix = unix; registrations = 0; heartbeats = 0 })
        s.peers,
    bytes_eq_iff host j,
  ),
  ground arith,
)

-- What one call does to the entry of a host that is known.
unfoldable pub touch : Bytes → PeerCall → PeerStat → PeerStat
touch host (request h unix) p = if bytes_eq h host then record p { last_request_unix = unix } else p
touch host (registration h) p =
    if bytes_eq h host then record p { registrations = add64 p.registrations 1 } else p
touch host (heartbeat h) p =
    if bytes_eq h host then record p { heartbeats = add64 p.heartbeats 1 } else p

unfoldable pub touch_all : Bytes → List PeerCall → PeerStat → PeerStat
unfolding touch
touch_all host [] p = p
touch_all host (c ∷ cs) p = touch_all host cs (touch host c p)

apply-touch :
    (host : Bytes) (c : PeerCall) (s : Store) (p : PeerStat)
    → lookup host s.peers ≡ some p
    → lookup host (apply c s).peers ≡ some (touch host c p)
unfolding apply touch record_peer_registration record_peer_heartbeat
apply-touch host (request h unix) s p k =
    ground (arith, (record_peer_request_at_lem h host unix s).0, bytes_eq_iff h host)
apply-touch host (registration h) s p k = ground (
  arith,
  lookup-adjust h host (λ (p : PeerStat). record p { registrations = add64 p.registrations 1 })
      s.peers,
)
apply-touch host (heartbeat h) s p k = ground (
  arith,
  lookup-adjust h host (λ (p : PeerStat). record p { heartbeats = add64 p.heartbeats 1 }) s.peers,
)

-- A known publisher is never evicted, and its entry is what its own calls make of it, whatever
-- other publishers do and whether or not the table is full.
pub apply_all-touch :
    (host : Bytes) (cs : List PeerCall) (s : Store) (p : PeerStat)
    → lookup host s.peers ≡ some p
    → lookup host (apply_all cs s).peers ≡ some (touch_all host cs p)
unfolding apply_all touch_all
apply_all-touch host [] s p k = k
apply_all-touch host (c ∷ cs) s p k = apply_all-touch host cs _ _ (apply-touch host c s p k)
