-- ===== src/Writers/Budget/Fits.antt =====
-- The budget of pkg/evtx/writer_evtx_notwindows.go on few fields: the loop never breaks over it.
use mathlib.Core.Path.{subst}
use cee_exporter.Common.{
  ℕ, zero, suc, ◌+◌, ◌*◌, ◌/◌, ◌≤◌, ◌<◌, ◌≡◌, ◌≢◌, refl, ◌∙◌, Bool, true, not, inl, inr, Option,
  none, some, [], ◌∷◌, ltb, leb, Bytes, length, arith, Bool-cases, if-both, All, All-map,
}
use cee_exporter.Common.Assoc.{bytes_key, length-adjust, IsMap}
use cee_exporter.Writers.Budget.{
  Fields, encoded_total, max_encoded_fields_bytes, back_off, longest_from, shorten, budget_loop,
  field_bytes, enforce_encoded_budget,
}
use cee_exporter.Writers.Budget.Encoded.{encoded_len-bound}
use cee_exporter.Writers.Budget.Termination.{IsDone, back_off-bound, enforce_encoded_budget-ends}

-- A long value can be shortened.
shorten-long :
    (fields : Fields) (key value : Bytes) → 28 < length value → shorten fields (key, value) ≢ none
unfolding shorten
shorten-long fields key value h = ground (arith, h, back_off-bound value (length value / 2))

abbrev AtMost : ℕ → Bytes × Bytes → Type 0
AtMost n (k, v) = length v ≤ n

-- A value as long as those of the fields and the one to start from.
record IsLongest (fields : Fields) (value : Bytes) (e : Bytes × Bytes) : Type 0 where
  from : length value ≤ length e.1
  others : All (AtMost (length e.1)) fields

longest_from-IsLongest :
    (fields : Fields) (key value : Bytes) → IsLongest fields value (longest_from fields key value)
unfolding longest_from
longest_from-IsLongest [] key value = record { from = omega arith; others = tt }
longest_from-IsLongest ((k, v) ∷ fields) key value =
    elim (Bool-cases (ltb (length value) (length v))) [
      | inl e ↦
          let h = longest_from-IsLongest fields k v in
          rw (e, longest_from)
            (record { from = ground (arith, e, h.from); others = (h.from, h.others) })
      | inr e ↦
          let h = longest_from-IsLongest fields key value in
          rw (e, longest_from)
            (record { from = h.from; others = (ground (arith, e, h.from), h.others) })
    ]

-- Fields of at most 1600 bytes each.
total-short :
    (fields : Fields) → All (AtMost 1600) fields → encoded_total fields ≤ 3204 * length fields
total-short [] h = omega arith
total-short ((k, v) ∷ fields) (h, hs) = omega (arith, encoded_len-bound v, total-short fields hs)

Done-fits :
    (fields : Fields)
    → length fields ≤ 19
    → IsDone fields
    → encoded_total fields ≤ max_encoded_fields_bytes
Done-fits fields l (inl h) = ground (arith, h)
Done-fits fields l (inr h) = elim (Bool-cases (leb (length (longest_from fields [] []).1) 1600)) [
  | inl e ↦ omega (
    arith,
    total-short fields (
        All-map _ (AtMost 1600) fields (λ x b. ground (arith, b, e))
          (longest_from-IsLongest fields [] []).others),
    l,
  )
  | inr e ↦ absurd (
      shorten-long fields (longest_from fields [] []).0 (longest_from fields [] []).1
        (ground (arith, e)) h)
]

-- The result, where there is one, has as many fields.
abbrev SameLength : Fields → Option Fields → Type 0
SameLength fields none = Unit
SameLength fields (some f) = length f ≡ length fields

shorten-SameLength : (fields : Fields) (e : Bytes × Bytes) → SameLength fields (shorten fields e)
unfolding shorten
shorten-SameLength fields (key, value) =
    let keep = back_off value (length value / 2) in
    if-both (SameLength fields) (leb (length value) 14) _ _ tt (
      if-both (SameLength fields) (leb (length value) (keep + 14)) _ _ tt
        (length-adjust key _ fields))

budget_loop-SameLength : (fuel : ℕ) (fields : Fields) → SameLength fields (budget_loop fuel fields)
unfolding budget_loop
budget_loop-SameLength zero fields = tt
budget_loop-SameLength (suc fuel) fields =
    elim (Bool-cases (leb (encoded_total fields) max_encoded_fields_bytes)) [
      | inl e ↦ rw (e, budget_loop) refl
      | inr e ↦
          rw (e, budget_loop)
            (next (shorten fields (longest_from fields [] []))
              (shorten-SameLength fields (longest_from fields [] []))
              (λ f. budget_loop-SameLength fuel f))
    ]
  where
    longer :
        (f : Fields) (o : Option Fields)
        → length f ≡ length fields
        → SameLength f o
        → SameLength fields o
    longer f none e h = tt
    longer f (some g) e h = h ∙ e

    next :
        (o : Option Fields)
        → SameLength fields o
        → ((f : Fields) → SameLength f (budget_loop fuel f))
        → SameLength fields (elim o [ none ↦ some fields | some f ↦ budget_loop fuel f ])
    next none h k = refl
    next (some f) h k = longer f (budget_loop fuel f) h (k f)

-- The result of the whole function.
abbrev AsLong : Fields → Option (Fields × Bool) → Type 0
AsLong fields none = Unit
AsLong fields (some (f, b)) = length f ≡ length fields

enforce_encoded_budget-AsLong : (fields : Fields) → AsLong fields (enforce_encoded_budget fields)
unfolding enforce_encoded_budget
enforce_encoded_budget-AsLong fields =
    if-both (AsLong fields) (leb (encoded_total fields) max_encoded_fields_bytes) _ _ refl (
      next (budget_loop (suc (field_bytes fields)) fields)
        (budget_loop-SameLength (suc (field_bytes fields)) fields))
  where
    next :
        (o : Option Fields)
        → SameLength fields o
        → AsLong fields (elim o [ none ↦ none | some f ↦ some (f, true) ])
    next none h = tt
    next (some f) h = h

-- On at most 19 fields, as many as an event has, enforceEncodedBudget never gives up: it ends with
-- as many fields within the budget, and reports whether those it was given were over it.
pub enforce_encoded_budget-fits :
    (fields : Fields)
    → IsMap fields
    → length fields ≤ 19
    → (f : Fields) × (enforce_encoded_budget fields
        ≡ some (f, not (leb (encoded_total fields) max_encoded_fields_bytes)))
      × (encoded_total f ≤ max_encoded_fields_bytes)
      × (length f ≡ length fields)
enforce_encoded_budget-fits fields m l =
    let (f, e, n, d, t, u) = enforce_encoded_budget-ends fields m in
    let same : length f ≡ length fields =
      subst (AsLong fields) e (enforce_encoded_budget-AsLong fields) in
    (f, e, Done-fits f (omega (arith, l, same)) d, same)
