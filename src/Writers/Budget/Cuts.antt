-- ===== src/Writers/Budget/Cuts.antt =====
-- What the budget of pkg/evtx/writer_evtx_notwindows.go may make of the fields.
use cee_exporter.Common.{
  ℕ, ◌/◌, ◌≤◌, ◌≡◌, refl, sym, ◌∙◌, Bool, true, false, some, [], ◌∷◌, ◌++◌, Bytes, length, take,
  arith, bytes_eq, if◌then◌else◌,
}
use cee_exporter.Common.Assoc.{bytes_key, adjust, lookup}
use cee_exporter.Writers.Budget.{Fields, truncation_marker}
use mathlib.Core.Path.{subst}
use mathlib.Core.Option.{some-injective}

-- The value itself, or a value that was cut at half its length or before and marked, and again.
pub data Cuts : Bytes → Bytes → Type 0 where
  whole : {v : Bytes} → Cuts v v
  cut : {v u : Bytes} (n : ℕ) → n ≤ length u / 2 → Cuts v u → Cuts v (take n u ++ truncation_marker)

-- The same keys in the same order, with values that were cut.
abbrev pub Trimmed : Fields → Fields → Type 0
Trimmed [] [] = Unit
Trimmed ((k, v) ∷ fields) ((j, u) ∷ fields') = (k ≡ j) × Cuts v u × Trimmed fields fields'
Trimmed _ _ = ⊥

pub Trimmed-refl : (fields : Fields) → Trimmed fields fields
Trimmed-refl [] = tt
Trimmed-refl ((k, v) ∷ fields) = (refl, whole, Trimmed-refl fields)

Cuts-trans : {v u w : Bytes} → Cuts v u → Cuts u w → Cuts v w
Cuts-trans c whole = c
Cuts-trans c (cut n l d) = cut n l (Cuts-trans c d)

pub Trimmed-trans : (f g h : Fields) → Trimmed f g → Trimmed g h → Trimmed f h
Trimmed-trans [] [] [] a b = tt
Trimmed-trans [] [] (x ∷ h) a b = absurd b
Trimmed-trans [] (x ∷ g) h a b = absurd a
Trimmed-trans (x ∷ f) [] h a b = absurd a
Trimmed-trans (x ∷ f) (y ∷ g) [] a b = absurd b
Trimmed-trans ((k, v) ∷ f) ((j, u) ∷ g) ((i, w) ∷ h) a b =
    (a.0 ∙ b.0, Cuts-trans a.1 b.1, Trimmed-trans f g h a.2 b.2)

-- A cut of the value of one key.
pub adjust-Trimmed :
    (fields : Fields) (key value : Bytes) (n : ℕ)
    → lookup key fields ≡ some value
    → n ≤ length value / 2
    → Trimmed fields (adjust key (λ v. take n value ++ truncation_marker) fields)
unfolding lookup adjust
adjust-Trimmed [] key value n h l = ground (arith, h)
adjust-Trimmed ((k, v) ∷ fields) key value n h l =
    head_or (bytes_eq k key) h (λ g. adjust-Trimmed fields key value n g l)
  where
    head_or :
        (b : Bool)
        → (if b then some v else lookup key fields) ≡ some value
        → (lookup key fields ≡ some value
            → Trimmed fields (adjust key (λ v. take n value ++ truncation_marker) fields))
        → Trimmed ((k, v) ∷ fields) (
            if b
            then (k, take n value ++ truncation_marker) ∷ fields
            else (k, v) ∷ adjust key (λ v. take n value ++ truncation_marker) fields)
    head_or true h r = (
      refl,
      subst (λ z. Cuts z (take n value ++ truncation_marker)) (sym (some-injective _ _ h))
          (cut n l whole),
      Trimmed-refl fields,
    )
    head_or false h r = (refl, whole, r h)
