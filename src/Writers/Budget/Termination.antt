-- ===== src/Writers/Budget/Termination.antt =====
-- The loop of `enforceEncodedBudget` in pkg/evtx/writer_evtx_notwindows.go ends.
use cee_exporter.Common.{
  ℕ, zero, suc, ◌+◌, ◌/◌, ◌≤◌, ◌<◌, ◌≡◌, ◌≢◌, refl, sym, ap, ◌∙◌, true, false, not, ◌⊎◌, inl, inr,
  Option, none, some, [], ◌∷◌, ◌++◌, ltb, leb, Bytes, length, take, arith, bytes_eq, bytes_eq_iff,
  codes, length-append, Bool-cases, if-both, bytes_eq_refl,
}
use cee_exporter.Common.Assoc.{bytes_key, adjust, lookup, IsMap, adjust-IsMap}
use cee_exporter.Writers.Budget.Cuts.{Trimmed, Trimmed-refl, Trimmed-trans, adjust-Trimmed}
use cee_exporter.Writers.Budget.{
  Fields, encoded_total, field_bytes, truncation_marker, max_encoded_fields_bytes, back_off,
  longest_from, shorten, budget_loop, enforce_encoded_budget,
}

length-take : (n : ℕ) (s : Bytes) → length (take n s) ≤ n
length-take zero s = omega arith
length-take (suc n) [] = omega arith
length-take (suc n) (c ∷ s) = omega (arith, length-take n s)

-- Replacing the value of a key that is there, by a shorter one, takes bytes away.
adjust-shorter :
    (fields : Fields) (key value by : Bytes)
    → lookup key fields ≡ some value
    → length by < length value
    → field_bytes (adjust key (λ v. by) fields) < field_bytes fields
unfolding lookup adjust
adjust-shorter [] key value by h l = ground arith
adjust-shorter ((k, v) ∷ fields) key value by h l =
    ground (arith, adjust-shorter fields key value by)

lookup-later :
    (fields : Fields) (k v j w : Bytes)
    → lookup k fields ≡ none
    → lookup j fields ≡ some w
    → lookup j ((k, v) ∷ fields) ≡ some w
unfolding lookup
lookup-later fields k v j w h g = elim (Bool-cases (bytes_eq k j)) [
  | inl e ↦ absurd (none≢some w (sym h ∙ ap (λ i. lookup i fields) ((bytes_eq_iff k j).0 e) ∙ g))
  | inr e ↦ rw (e, lookup) g
]
  where
    none≢some : (w : Bytes) → none ≢ some w
    none≢some w e = ground arith

-- The entry that `longest_from` finds is one of the map, or the one it started with.
longest_from-found :
    (fields : Fields) (key value : Bytes)
    → IsMap fields
    → (longest_from fields key value ≡ (key, value))
      ⊎ (lookup (longest_from fields key value).0 fields ≡ some (longest_from fields key value).1)
unfolding longest_from lookup
longest_from-found [] key value h = inl refl
longest_from-found ((k, v) ∷ fields) key value (h, hs) =
    if-both (λ e. (e ≡ (key, value)) ⊎ (lookup e.0 ((k, v) ∷ fields) ≡ some e.1))
      (ltb (length value) (length v)) _ _
      (inr (from_head (longest_from fields k v) (longest_from-found fields k v hs)))
      (from_start (longest_from fields key value) (longest_from-found fields key value hs))
  where
    from_head :
        (e : Bytes × Bytes)
        → (e ≡ (k, v)) ⊎ (lookup e.0 fields ≡ some e.1)
        → lookup e.0 ((k, v) ∷ fields) ≡ some e.1
    from_head e (inl same) = rw (same, lookup, bytes_eq_refl k)
    from_head e (inr later) = lookup-later fields k v e.0 e.1 h later

    from_start :
        (e : Bytes × Bytes)
        → (e ≡ (key, value)) ⊎ (lookup e.0 fields ≡ some e.1)
        → (e ≡ (key, value)) ⊎ (lookup e.0 ((k, v) ∷ fields) ≡ some e.1)
    from_start e (inl same) = inl same
    from_start e (inr later) = inr (lookup-later fields k v e.0 e.1 h later)

pub back_off-bound : (s : Bytes) (keep : ℕ) → back_off s keep ≤ keep
unfolding back_off
back_off-bound s zero = omega arith
back_off-bound s (suc keep) = ground (arith, back_off-bound s keep)

-- What a round of the loop leaves: fewer bytes, in a map, with one value cut.
abbrev Shorter : Fields → Option Fields → Type 0
Shorter fields none = Unit
Shorter fields (some f) = (field_bytes f < field_bytes fields) × IsMap f × Trimmed fields f

shorten-Shorter :
    (fields : Fields) (e : Bytes × Bytes)
    → IsMap fields
    → (e ≡ ([], [])) ⊎ (lookup e.0 fields ≡ some e.1)
    → Shorter fields (shorten fields e)
unfolding shorten truncation_marker codes
shorten-Shorter fields (key, value) m h =
    let keep = back_off value (length value / 2) in
    elim (Bool-cases (leb (length value) 14)) [
      | inl e ↦ rw (e, shorten) tt
      | inr e ↦ elim (Bool-cases (leb (length value) (keep + 14))) [
        | inl c ↦ rw (e, c, shorten) tt
        | inr c ↦
            rw (e, c, shorten)
              (
                adjust-shorter fields key value (take keep value ++ truncation_marker)
                    (present h (ground (arith, e)))
                    (omega (
                      arith,
                      length-append (take keep value) truncation_marker,
                      length-take keep value,
                      not_within (length value) (keep + 14) c,
                    )),
                adjust-IsMap key _ fields m,
                adjust-Trimmed fields key value keep (present h (ground (arith, e)))
                    (back_off-bound value (length value / 2)),
              )
      ]
    ]
  where
    present :
        (◌≡◌ {A = Bytes × Bytes} (key, value) ([], [])) ⊎ (lookup key fields ≡ some value)
        → 0 < length value
        → lookup key fields ≡ some value
    present (inl e) l = ground (arith, ap (λ (p : Bytes × Bytes). length p.1) e)
    present (inr g) l = g

    not_within : (a b : ℕ) → leb a b ≡ false → b < a
    not_within a b h = ground arith

-- The fields are within the budget, or no field can be shortened by the marker any more.
abbrev pub IsDone : Fields → Type 0
IsDone fields =
    (leb (encoded_total fields) max_encoded_fields_bytes ≡ true)
    ⊎ (shorten fields (longest_from fields [] []) ≡ none)

pub budget_loop-ends :
    (fuel : ℕ) (fields : Fields)
    → IsMap fields
    → field_bytes fields < fuel
    → (f : Fields) × (budget_loop fuel fields ≡ some f) × IsMap f × IsDone f × Trimmed fields f
unfolding budget_loop
budget_loop-ends zero fields m h = ground arith
budget_loop-ends (suc fuel) fields m h =
    elim (Bool-cases (leb (encoded_total fields) max_encoded_fields_bytes)) [
      | inl e ↦ (fields, rw (e, budget_loop), m, inl e, Trimmed-refl fields)
      | inr e ↦
          next (shorten fields (longest_from fields [] [])) refl
            (shorten-Shorter fields (longest_from fields [] []) m
              (longest_from-found fields [] [] m))
            e (λ f l k. budget_loop-ends fuel f k l)
    ]
  where
    next :
        (o : Option Fields)
        → shorten fields (longest_from fields [] []) ≡ o
        → Shorter fields o
        → leb (encoded_total fields) max_encoded_fields_bytes ≡ false
        → ((f : Fields)
            → field_bytes f < fuel
            → IsMap f
            → (g : Fields) × (budget_loop fuel f ≡ some g) × IsMap g × IsDone g × Trimmed f g)
        → (g : Fields) × (budget_loop (suc fuel) fields ≡ some g)
          × IsMap g
          × IsDone g
          × Trimmed fields g
    next none o s e k = (fields, rw (e, budget_loop, o), m, inr o, Trimmed-refl fields)
    next (some f) o (l, n, t) e k =
        let (g, r, n', d, t') = k f (omega (arith, l, h)) n in
        (g, rw (e, budget_loop, o) r, n', d, Trimmed-trans fields f g t t')

pub enforce_encoded_budget-ends :
    (fields : Fields)
    → IsMap fields
    → (f : Fields) × (enforce_encoded_budget fields
        ≡ some (f, not (leb (encoded_total fields) max_encoded_fields_bytes)))
      × IsMap f
      × IsDone f
      × Trimmed fields f
      × (leb (encoded_total fields) max_encoded_fields_bytes ≡ true → f ≡ fields)
unfolding enforce_encoded_budget
enforce_encoded_budget-ends fields m =
    elim (Bool-cases (leb (encoded_total fields) max_encoded_fields_bytes)) [
      | inl e ↦ (fields, rw (e, enforce_encoded_budget), m, inl e, Trimmed-refl fields, λ k. refl)
      | inr e ↦
          let (f, r, n, d, t) =
            budget_loop-ends (suc (field_bytes fields)) fields m (omega arith) in
          (f, rw (e, enforce_encoded_budget, r), n, d, t, λ k. cc)
    ]
