-- ===== src/Prometheus/Families.antt =====
-- The families of the series of pkg/prometheus/handler.go, and the series of one family.
use cee_exporter.Common.{
  ℕ, ◌≤◌, ◌<◌, ◌≡◌, ◌≢◌, refl, ap, sym, ◌∙◌, true, false, ◌&&◌, leb, ℤ, none, List, [], ◌∷◌, ◌++◌,
  arith, Bytes, codes, bytes_eq, bytes_eq_iff, All, All-map, if◌then◌else◌, map,
}
use cee_exporter.Common.Assoc.{Key, Assoc, bytes_key, lookup, IsMap}
use cee_exporter.Metrics.{EventTypeKey, event_type_key, PeerStat}
use cee_exporter.Metrics.Snapshot.{to_int64, EventTypeStat, EventServerStat}
use cee_exporter.Prometheus.{
  Kind, counter, gauge, Series, Desc, cepa_last_request_desc, cepa_registrations_desc,
  cepa_heartbeats_desc, events_by_type_desc, events_by_server_desc, const_metric, collect_peers,
  collect_types, collect_servers,
}

-- Two series of a scrape differ in their name or in a label.
abbrev pub Differ : Series → Series → Type 0
Differ a b = a.name ≡ b.name → a.labels ≢ b.labels

abbrev pub Apart : List Series → Type 0
Apart [] = Unit
Apart (x ∷ xs) = All (Differ x) xs × Apart xs

-- The place of a name in the order of the scrape's families: the scalars, the five of the
-- collector, the build's.
unfoldable pub place : Bytes → ℕ
place name =
    if bytes_eq name (codes "cee_build_info")
    then 18
    else if bytes_eq name (codes "cee_events_by_server_total")
    then 17
    else if bytes_eq name (codes "cee_events_by_type_total")
    then 16
    else if bytes_eq name (codes "cee_cepa_heartbeats_total")
    then 15
    else if bytes_eq name (codes "cee_cepa_registrations_total")
    then 14
    else if bytes_eq name (codes "cee_cepa_last_request_unix_seconds")
    then 13
    else 0

abbrev pub Within : ℕ → ℕ → Series → Type 0
Within a b s = (a ≤ place s.name) × (place s.name ≤ b)

pub Differ-placed : (x y : Series) (a b c d : ℕ) → Within a b x → Within c d y → b < c → Differ x y
Differ-placed x y a b c d h k l e g = omega (arith, ap place e, h, k, l)

pub All-Differ :
    (x : Series) (ys : List Series) (a b c d : ℕ)
    → Within a b x
    → All (Within c d) ys
    → b < c
    → All (Differ x) ys
All-Differ x ys a b c d h k l =
    All-map (Within c d) (Differ x) ys (λ y w. Differ-placed x y a b c d h w l) k

pub All-append :
    (P : Series → Type 0) (xs ys : List Series) → All P xs → All P ys → All P (xs ++ ys)
All-append P [] ys h k = k
All-append P (x ∷ xs) ys h k = (h.0, All-append P xs ys h.1 k)

pub Apart-append :
    (xs ys : List Series) (a b c d : ℕ)
    → b < c
    → All (Within a b) xs
    → All (Within c d) ys
    → Apart xs
    → Apart ys
    → Apart (xs ++ ys)
Apart-append [] ys a b c d l h k p q = q
Apart-append (x ∷ xs) ys a b c d l h k p q = (
  All-append (Differ x) xs ys p.0 (All-Differ x ys a b c d h.0 k l),
  Apart-append xs ys a b c d l h.1 k p.1 q,
)

const_metric-Within :
    (d : Desc) (kind : Kind) (z : ℤ) (values : List Bytes) (a b : ℕ)
    → leb a (place d.name) && leb (place d.name) b ≡ true
    → Within a b (const_metric d kind z values)
unfolding const_metric
const_metric-Within d kind z values a b h = ground arith

-- The series of the publishers.
pub peers-Within : (peers : Assoc Bytes PeerStat) → All (Within 13 15) (collect_peers peers)
unfolding collect_peers place codes cepa_last_request_desc cepa_registrations_desc
    cepa_heartbeats_desc bytes_eq
peers-Within [] = tt
peers-Within ((host, p) ∷ peers) = (
  const_metric-Within cepa_last_request_desc _ _ _ 13 15 refl,
  (
    const_metric-Within cepa_registrations_desc _ _ _ 13 15 refl,
    (const_metric-Within cepa_heartbeats_desc _ _ _ 13 15 refl, peers-Within peers),
  ),
)

pub types-Within : (es : List EventTypeStat) → All (Within 16 16) (collect_types es)
unfolding collect_types place codes events_by_type_desc bytes_eq
types-Within [] = tt
types-Within (e ∷ es) = (const_metric-Within events_by_type_desc _ _ _ 16 16 refl, types-Within es)

pub servers-Within : (es : List EventServerStat) → All (Within 17 17) (collect_servers es)
unfolding collect_servers place codes events_by_server_desc bytes_eq
servers-Within [] = tt
servers-Within (e ∷ es) =
    (const_metric-Within events_by_server_desc _ _ _ 17 17 refl, servers-Within es)

lookup-later {ℓ κ} :
    {K : Type ℓ} {V : Type κ} ⦃e : Key K⦄ (k j : K) (v : V) (m : Assoc K V)
    → lookup k ((j, v) ∷ m) ≡ none
    → (k ≢ j) × (lookup k m ≡ none)
unfolding lookup
lookup-later ⦃e⦄ k j v m h = ground (arith, e.same_iff j k)

pub bytes_differ : (a b : Bytes) → bytes_eq a b ≡ false → a ≢ b
bytes_differ a b h = ground (arith, bytes_eq_iff a b)

-- The series of one host differ from those of the other hosts.
peers-other :
    (x : Series) (host : Bytes) (peers : Assoc Bytes PeerStat)
    → x.labels ≡ (codes "remote", host) ∷ []
    → lookup host peers ≡ none
    → All (Differ x) (collect_peers peers)
unfolding collect_peers const_metric cepa_last_request_desc cepa_registrations_desc
    cepa_heartbeats_desc
peers-other x host [] e n = tt
peers-other x host ((h, p) ∷ peers) e n =
    let (ne, later) = lookup-later host h p peers n in
    let d : x.labels ≢ (codes "remote", h) ∷ [] = λ g. ground (arith, sym e ∙ g) in
    (λ _ g. d g, (λ _ g. d g, (λ _ g. d g, peers-other x host peers e later)))

pub peers-Apart : (peers : Assoc Bytes PeerStat) → IsMap peers → Apart (collect_peers peers)
unfolding collect_peers const_metric cepa_last_request_desc cepa_registrations_desc
    cepa_heartbeats_desc codes bytes_eq
peers-Apart [] m = tt
peers-Apart ((host, p) ∷ peers) (n, m) = (
  (
    λ e _. bytes_differ cepa_last_request_desc.name cepa_registrations_desc.name refl e,
    (
      λ e _. bytes_differ cepa_last_request_desc.name cepa_heartbeats_desc.name refl e,
      peers-other
          (const_metric cepa_last_request_desc gauge (to_int64 p.last_request_unix) (host ∷ []))
          host peers refl n,
    ),
  ),
  (
    (
      λ e _. bytes_differ cepa_registrations_desc.name cepa_heartbeats_desc.name refl e,
      peers-other
          (const_metric cepa_registrations_desc counter (to_int64 p.registrations) (host ∷ [])) host
          peers refl n,
    ),
    (
      peers-other (const_metric cepa_heartbeats_desc counter (to_int64 p.heartbeats) (host ∷ []))
          host peers refl n,
      peers-Apart peers m,
    ),
  ),
)

abbrev type_stat : EventTypeKey × ℕ → EventTypeStat
type_stat (k, c) = record { event_type = k.event_type; protocol = k.protocol; count = to_int64 c }

types-other :
    (x : Series) (k : EventTypeKey) (m : Assoc EventTypeKey ℕ)
    → x.labels ≡ (codes "event_type", k.event_type) ∷ (codes "protocol", k.protocol) ∷ []
    → lookup k m ≡ none
    → All (Differ x) (collect_types (map type_stat m))
unfolding collect_types const_metric events_by_type_desc
types-other x k [] e n = tt
types-other x k ((j, c) ∷ m) e n =
    let (ne, later) = lookup-later k j c m n in
    (λ _ g. ground (arith, sym e ∙ g), types-other x k m e later)

pub types-Apart : (m : Assoc EventTypeKey ℕ) → IsMap m → Apart (collect_types (map type_stat m))
unfolding collect_types const_metric events_by_type_desc
types-Apart [] m = tt
types-Apart ((k, c) ∷ m) (n, h) = (
  types-other
      (const_metric events_by_type_desc counter (to_int64 c) (k.event_type ∷ k.protocol ∷ [])) k m
      refl n,
  types-Apart m h,
)

abbrev server_stat : Bytes × ℕ → EventServerStat
server_stat (k, c) = record { server = k; count = to_int64 c }

servers-other :
    (x : Series) (k : Bytes) (m : Assoc Bytes ℕ)
    → x.labels ≡ (codes "server", k) ∷ []
    → lookup k m ≡ none
    → All (Differ x) (collect_servers (map server_stat m))
unfolding collect_servers const_metric events_by_server_desc
servers-other x k [] e n = tt
servers-other x k ((j, c) ∷ m) e n =
    let (ne, later) = lookup-later k j c m n in
    (λ _ g. ground (arith, sym e ∙ g), servers-other x k m e later)

pub servers-Apart : (m : Assoc Bytes ℕ) → IsMap m → Apart (collect_servers (map server_stat m))
unfolding collect_servers const_metric events_by_server_desc
servers-Apart [] m = tt
servers-Apart ((k, c) ∷ m) (n, h) = (
  servers-other (const_metric events_by_server_desc counter (to_int64 c) (k ∷ [])) k m refl n,
  servers-Apart m h,
)

pub All-widen :
    (a b c d : ℕ) (xs : List Series) → c ≤ a → b ≤ d → All (Within a b) xs → All (Within c d) xs
All-widen a b c d xs l k h =
    All-map (Within a b) (Within c d) xs (λ x w. (omega (arith, w), omega (arith, w))) h
