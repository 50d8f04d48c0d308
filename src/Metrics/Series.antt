-- ===== src/Metrics/Series.antt =====
-- The series of the breakdowns of pkg/metrics/metrics.go: which events each of them counts.
use cee_exporter.Common.{
  ℕ, ◌+◌, ◌%◌, ◌^◌, ◌≤◌, ◌≡◌, refl, sym, ap, ◌∙◌, ◌⊎◌, true, false, none, some, List, [], ◌∷◌,
  arith, inl, inr, if◌then◌else◌, length, count, map, Bytes, bytes_eq, add64, Bool-cases,
  Option-cases,
}
use cee_exporter.Common.Assoc.{
  Key, Assoc, bytes_key, lookup, lookup-adjust, lookup-add_entry, length-adjust, length-add_entry,
}
use cee_exporter.Metrics.{
  max_event_labels, EventTypeKey, event_type_key, Store, bump_label, record_slow,
}
use cee_exporter.Metrics.Breakdown.{
  Seen, record_all, key_of, named, accounted, record_all-cons, record_all-accounted,
}

module _ {ℓ} {K : Type ℓ} ⦃e : Key K⦄ where
  -- How often a key is in a list.
  abbrev pub times : K → List K → ℕ
  times k ks = count (λ j. e.same j k) ks

  abbrev pub value : K → Assoc K ℕ → ℕ
  value k m = elim (lookup k m) [ none ↦ 0 | some c ↦ c ]

  -- The series of a key from one breakdown to a later one, with `n` events of that key between: it
  -- has counted them all, modulo 64 bits; or there is none still, since there was no event or the
  -- breakdown is full.
  abbrev pub Counted : K → ℕ → Assoc K ℕ → Assoc K ℕ → Type 0
  Counted k n m m' =
      ((c : ℕ) × (lookup k m' ≡ some c) × (c % 2 ^ 64 ≡ (value k m + n) % 2 ^ 64))
      ⊎ ((lookup k m ≡ none) × (lookup k m' ≡ none) × ((n ≡ 0) ⊎ (max_event_labels ≤ length m')))

  abbrev bump_all : Assoc K ℕ → List K → Assoc K ℕ
  bump_all m [] = m
  bump_all m (k ∷ ks) = bump_all (bump_label m k).0 ks

  bump_label-grows : (m : Assoc K ℕ) (k : K) → length m ≤ length (bump_label m k).0
  unfolding bump_label
  bump_label-grows m k =
      ground (arith, length-adjust k (λ (c : ℕ). add64 c 1) m, length-add_entry k 1 m)

  bump_all-grows : (m : Assoc K ℕ) (ks : List K) → length m ≤ length (bump_all m ks)
  bump_all-grows m [] = omega arith
  bump_all-grows m (k ∷ ks) =
      omega (arith, bump_label-grows m k, bump_all-grows (bump_label m k).0 ks)

  -- A full breakdown gets no series.
  bump_label-full :
      (m : Assoc K ℕ) (j k : K)
      → max_event_labels ≤ length m
      → lookup k m ≡ none
      → lookup k (bump_label m j).0 ≡ none
  unfolding bump_label
  bump_label-full m j k f h =
      ground (arith, lookup-adjust j k (λ (c : ℕ). add64 c 1) m, e.same_iff j k)

  bump_all-full :
      (m : Assoc K ℕ) (ks : List K) (k : K)
      → max_event_labels ≤ length m
      → lookup k m ≡ none
      → lookup k (bump_all m ks) ≡ none
  bump_all-full m [] k f h = h
  bump_all-full m (j ∷ ks) k f h =
      bump_all-full (bump_label m j).0 ks k (omega (arith, f, bump_label-grows m j))
        (bump_label-full m j k f h)

  -- What one event does to the series of its key, and to the others.
  bump_label-same :
      (m : Assoc K ℕ) (j k : K)
      → e.same j k ≡ true
      → (lookup k (bump_label m j).0 ≡ some (add64 (value k m) 1))
        ⊎ ((lookup k m ≡ none) × (max_event_labels ≤ length m))
  unfolding bump_label
  bump_label-same m j k y =
      ground (
        arith,
        lookup-adjust j k (λ (c : ℕ). add64 c 1) m,
        lookup-add_entry j k 1 m,
        e.same_iff j k,
      )

  bump_label-other :
      (m : Assoc K ℕ) (j k : K) → e.same j k ≡ false → lookup k (bump_label m j).0 ≡ lookup k m
  unfolding bump_label
  bump_label-other m j k n =
      ground (arith, lookup-adjust j k (λ (c : ℕ). add64 c 1) m, lookup-add_entry j k 1 m)

  value_of : (k : K) (m : Assoc K ℕ) (c : ℕ) → lookup k m ≡ some c → value k m ≡ c
  value_of k m c h = ap (λ o. elim o [ none ↦ 0 | some c ↦ c ]) h

  value_eq : (k : K) (m m' : Assoc K ℕ) → lookup k m ≡ lookup k m' → value k m ≡ value k m'
  value_eq k m m' h = ap (λ o. elim o [ none ↦ 0 | some c ↦ c ]) h

  pub bump_all-Counted :
      (m : Assoc K ℕ) (ks : List K) (k : K) → Counted k (times k ks) m (bump_all m ks)
  bump_all-Counted m [] k = elim (Option-cases (lookup k m)) [
    | inl n ↦ inr (n, n, inl refl)
    | inr (c, h) ↦ inl (c, h, omega (arith, value_of k m c h))
  ]
  bump_all-Counted m (j ∷ ks) k =
      let m1 = (bump_label m j).0 in
      elim (Bool-cases (e.same j k)) [
        | inl y ↦ elim (bump_label-same m j k y) [
          | inl l ↦ elim (bump_all-Counted m1 ks k) [
            | inl (c, g, r) ↦ inl (c, g, ground (arith, y, r, value_of k m1 _ l))
            | inr (z, g, r) ↦ absurd (ground (arith, l, z))
          ]
          | inr (z, f) ↦ inr (
            z,
            bump_all-full m1 ks k (omega (arith, f, bump_label-grows m j))
                (bump_label-full m j k f z),
            inr (omega (arith, f, bump_label-grows m j, bump_all-grows m1 ks)),
          )
        ]
        | inr n ↦
            let o = bump_label-other m j k n in
            elim (bump_all-Counted m1 ks k) [
              | inl (c, g, r) ↦ inl (c, g, ground (arith, n, r, value_eq k m1 m o))
              | inr (z, g, r) ↦ inr (sym o ∙ z, g, ground (arith, n, r))
            ]
      ]

-- The servers that the events name.
abbrev pub servers_of : List Seen → List Bytes
servers_of [] = []
servers_of (e ∷ es) = if bytes_eq e.server [] then servers_of es else e.server ∷ servers_of es

record_all-by_type :
    (es : List Seen) (s : Store)
    → (record_all es s).events_by_type ≡ bump_all s.events_by_type (map key_of es)
record_all-by_type [] s = unfold record_all in refl
record_all-by_type (e ∷ es) s =
    rw record_all-cons
      (record_all-by_type es (record_slow (key_of e) e.server s) ∙ unfold record_slow in refl)

record_all-by_server :
    (es : List Seen) (s : Store)
    → (record_all es s).events_by_server ≡ bump_all s.events_by_server (servers_of es)
record_all-by_server [] s = unfold record_all in refl
record_all-by_server (e ∷ es) s = rw record_all-cons (
    record_all-by_server es (record_slow (key_of e) e.server s)
    ∙ elim (Bool-cases (bytes_eq e.server [])) [
      | inl y ↦ unfold record_slow in rw y refl
      | inr n ↦ unfold record_slow in rw n refl
    ])

-- Whatever events arrive, every series by type and protocol counts the events of just that type and
-- protocol, every series by server those that name just that server, each modulo 64 bits; a series
-- that there is not has had no event, or its breakdown is full. The increments of both breakdowns
-- and those reported as discarded add up to one for each event and one more for each that names a
-- server, modulo 64 bits.
pub record_all-Counted :
    (es : List Seen) (s : Store)
    → ((k : EventTypeKey)
        → Counted k (times k (map key_of es)) s.events_by_type (record_all es s).events_by_type)
      × ((b : Bytes)
          → Counted b
              (times b (servers_of es))
              s.events_by_server
              (record_all es s).events_by_server)
      × (accounted (record_all es s) % 2 ^ 64 ≡ (accounted s + length es + named es) % 2 ^ 64)
record_all-Counted es s = (
  λ k. rw (record_all-by_type es s) (bump_all-Counted s.events_by_type (map key_of es) k),
  λ b. rw (record_all-by_server es s) (bump_all-Counted s.events_by_server (servers_of es) b),
  record_all-accounted es s,
)
