-- ===== src/Metrics/Breakdown.antt =====
-- The event breakdowns of pkg/metrics/metrics.go: the fast path, the caps, the accounting.
use cee_exporter.Common.{
  ℕ, ◌+◌, ◌%◌, ◌^◌, ◌≤◌, ◌<◌, ◌≡◌, ◌∙◌, ap, not, some, List, [], ◌∷◌, arith, inl, inr,
  if◌then◌else◌, length, count, total, Bytes, bytes_eq, add64, Bool-cases, Option-cases,
}
use cee_exporter.Common.Assoc.{
  Key, Assoc, bytes_key, lookup, adjust, add_entry, lookup-adjust, lookup-add_entry, length-adjust,
  length-add_entry,
}
use cee_exporter.Metrics.{
  max_event_labels, EventTypeKey, event_type_key, key_eq, Store, bump_label, record_slow,
  record_fast, record_breakdown, record_event,
}

-- The path that only touches existing counters has the effect of the locked one, for every store
-- and every event.
pub record_breakdown-eq-slow :
    (k : EventTypeKey) (server : Bytes) (s : Store)
    → record_breakdown k server s ≡ record_slow k server s
unfolding record_breakdown record_slow record_fast
record_breakdown-eq-slow k server s = ground arith

-- The sum of a breakdown's counters.
abbrev pub tally {ℓ} : {K : Type ℓ} → Assoc K ℕ → ℕ
tally m = total (λ e. e.1) m

module _ {ℓ} {K : Type ℓ} ⦃e : Key K⦄ where
  tally-adjust :
      (k : K) (c : ℕ) (m : Assoc K ℕ)
      → lookup k m ≡ some c
      → tally (adjust k (λ c. add64 c 1) m) % 2 ^ 64 ≡ (tally m + 1) % 2 ^ 64
  unfolding lookup adjust
  tally-adjust k c [] h = ground arith
  tally-adjust k c ((j, v) ∷ m) h = ground (arith, tally-adjust k c m)

  tally-add_entry : (k : K) (m : Assoc K ℕ) → tally (add_entry k 1 m) ≡ tally m + 1
  unfolding add_entry
  tally-add_entry k [] = omega arith
  tally-add_entry k (x ∷ m) = omega (arith, tally-add_entry k m)

  pub bump_label-tally :
      (m : Assoc K ℕ) (k : K)
      → (tally (bump_label m k).0 + (if (bump_label m k).1 then 1 else 0)) % 2 ^ 64
        ≡ (tally m + 1) % 2 ^ 64
  unfolding bump_label
  bump_label-tally m k = elim (Option-cases (lookup k m)) [
    | inl n ↦ rw (n, bump_label) (ground (arith, tally-add_entry k m))
    | inr (c, h) ↦ rw (h, bump_label) (ground (arith, tally-adjust k c m h))
  ]

  pub bump_label-length :
      (m : Assoc K ℕ) (k : K)
      → length m ≤ max_event_labels
      → length (bump_label m k).0 ≤ max_event_labels
  unfolding bump_label
  bump_label-length m k h =
      ground (arith, length-adjust k (λ (c : ℕ). add64 c 1) m, length-add_entry k 1 m)

  pub bump_label-lookup :
      (m : Assoc K ℕ) (k j : K) (c : ℕ)
      → lookup j m ≡ some c
      → lookup j (bump_label m k).0 ≡ some (if e.same k j then add64 c 1 else c)
  unfolding bump_label
  bump_label-lookup m k j c h =
      ground (
        arith,
        lookup-adjust k j (λ (c : ℕ). add64 c 1) m,
        lookup-add_entry k j 1 m,
        e.same_iff k j,
      )

-- Neither breakdown grows past the cap.
pub record IsCapped (s : Store) : Type 0 where
  pub by_type : length s.events_by_type ≤ max_event_labels
  pub by_server : length s.events_by_server ≤ max_event_labels

pub record_slow-IsCapped :
    (k : EventTypeKey) (server : Bytes) {s : Store} → IsCapped s → IsCapped (record_slow k server s)
unfolding record_slow
record_slow-IsCapped k server {s} h =
    ground
      (arith, bump_label-length s.events_by_type k, bump_label-length s.events_by_server server)

-- One received event, as `RecordEvent` takes it.
pub record Seen : Type 0 where
  pub event_type : Bytes
  pub protocol : Bytes
  pub server : Bytes

unfoldable pub record_all : List Seen → Store → Store
record_all [] s = s
record_all (e ∷ es) s = record_all es (record_event e.event_type e.protocol e.server s)

abbrev pub key_of : Seen → EventTypeKey
key_of e = record { event_type = e.event_type; protocol = e.protocol }

pub record_all-cons :
    (e : Seen) (es : List Seen) (s : Store)
    → record_all (e ∷ es) s ≡ record_all es (record_slow (key_of e) e.server s)
unfolding record_all record_event
record_all-cons e es s = ap (record_all es) (record_breakdown-eq-slow (key_of e) e.server s)

-- However many events arrive, neither breakdown grows past `MaxEventLabels`.
pub record_all-IsCapped : (es : List Seen) (s : Store) → IsCapped s → IsCapped (record_all es s)
record_all-IsCapped [] s h = unfold record_all in h
record_all-IsCapped (e ∷ es) s h =
    rw record_all-cons (record_all-IsCapped es _ (record_slow-IsCapped (key_of e) e.server h))

-- What the two breakdowns and the drop counter account for.
abbrev pub accounted : Store → ℕ
accounted s = tally s.events_by_type + tally s.events_by_server + s.event_labels_dropped

abbrev pub named : List Seen → ℕ
named = count (λ e. not (bytes_eq e.server []))

record_slow-accounted :
    (k : EventTypeKey) (server : Bytes) (s : Store)
    → accounted (record_slow k server s) % 2 ^ 64
      ≡ (accounted s + 1 + (if not (bytes_eq server []) then 1 else 0)) % 2 ^ 64
unfolding record_slow
record_slow-accounted k server s =
    ground (arith, bump_label-tally s.events_by_type k, bump_label-tally s.events_by_server server)

-- Every event is counted once by type, and once by server if it names one, in a series or as a
-- discarded increment: nothing is lost from the accounting, modulo the counters' 64 bits.
pub record_all-accounted :
    (es : List Seen) (s : Store)
    → accounted (record_all es s) % 2 ^ 64 ≡ (accounted s + length es + named es) % 2 ^ 64
record_all-accounted [] s = unfold record_all in omega arith
record_all-accounted (e ∷ es) s = rw record_all-cons (
    omega (
      arith,
      record_slow-accounted (key_of e) e.server s,
      record_all-accounted es (record_slow (key_of e) e.server s),
    ))

record_slow-lookup :
    (k j : EventTypeKey) (server : Bytes) (s : Store) (c : ℕ)
    → lookup j s.events_by_type ≡ some c
    → lookup j (record_slow k server s).events_by_type ≡ some (if key_eq k j then add64 c 1 else c)
unfolding record_slow
record_slow-lookup k j server s c h = bump_label-lookup s.events_by_type k j c h

abbrev pub of_type : EventTypeKey → List Seen → ℕ
of_type k = count (λ e. key_eq (key_of e) k)

-- Once a series by type exists, it counts every later event of its type and protocol exactly
-- (modulo 64 bits), whatever other events arrive and whether or not the cap is reached.
pub record_all-lookup :
    (k : EventTypeKey) (es : List Seen) (s : Store) (c : ℕ)
    → lookup k s.events_by_type ≡ some c
    → c < 2 ^ 64
    → lookup k (record_all es s).events_by_type ≡ some ((c + of_type k es) % 2 ^ 64)
record_all-lookup k [] s c h lt = unfold record_all in (rw h (ap some (omega arith)))
record_all-lookup k (e ∷ es) s c h lt = rw record_all-cons (
    let here = record_slow-lookup (key_of e) k e.server s c h in
    elim (Bool-cases (key_eq (key_of e) k)) [
      | inl y ↦
          record_all-lookup k es _ (add64 c 1) (here ∙ rw y) (omega arith)
          ∙ rw y (ap some (omega arith))
      | inr n ↦ record_all-lookup k es _ c (here ∙ rw n) lt ∙ rw n (ap some (omega arith))
    ])
