-- ===== src/Common/Assoc.antt =====
-- A Go map as an association list with distinct keys; a nil map is the empty one.
use Prim.Native.Nat.{◌+◌}
use mathlib.Core.Path.{◌≡◌, refl}
use mathlib.Core.Logic.{◌↔◌}
use mathlib.Core.Bool.{Bool, true, false, not, ◌&&◌}
use mathlib.Core.Option.{Option, none, some}
use mathlib.Core.List.{List, [], ◌∷◌, ◌++◌}
use native.Mathlib.Omega.{arith}
use cee_exporter.Common.Tests.{if◌then◌else◌, if-both}
use cee_exporter.Common.Lists.{length, every}
use cee_exporter.Common.Text.{Bytes, bytes_eq, bytes_eq_iff}

-- A comparable type.
pub record Key {ℓ} (K : Type ℓ) : Type ℓ where
  pub same : K → K → Bool
  pub same_iff : (a b : K) → (same a b ≡ true) ↔ (a ≡ b)

instance abbrev pub bytes_key : Key Bytes
bytes_key = record { same = bytes_eq; same_iff = bytes_eq_iff }

abbrev pub Assoc {ℓ κ} : Type ℓ → Type κ → Type (ℓ ⊔ κ)
Assoc K V = List (K × V)

module _ {ℓ κ} {K : Type ℓ} {V : Type κ} ⦃e : Key K⦄ where
  -- m[k], with the absent key as `none`
  unfoldable pub lookup : K → Assoc K V → Option V
  lookup k [] = none
  lookup k ((j, v) ∷ m) = if e.same j k then some v else lookup k m

  -- A write through the pointer m[k] of a present key.
  unfoldable pub adjust : K → (V → V) → Assoc K V → Assoc K V
  adjust k f [] = []
  adjust k f ((j, v) ∷ m) = if e.same j k then (j, f v) ∷ m else (j, v) ∷ adjust k f m

  -- m[k] = v for an absent key.
  unfoldable pub add_entry : K → V → Assoc K V → Assoc K V
  add_entry k v m = m ++ (k, v) ∷ []

  pub lookup-adjust :
      (k j : K) (f : V → V) (m : Assoc K V)
      → lookup j (adjust k f m)
        ≡ elim (lookup j m) [ none ↦ none | some v ↦ some (if e.same k j then f v else v) ]
  unfolding lookup adjust
  lookup-adjust k j f [] = refl
  lookup-adjust k j f ((i, v) ∷ m) =
      ground (arith, lookup-adjust k j f m, e.same_iff i k, e.same_iff i j, e.same_iff k j)

  pub lookup-add_entry :
      (k j : K) (v : V) (m : Assoc K V)
      → lookup k m ≡ none
      → lookup j (add_entry k v m) ≡ (if e.same k j then some v else lookup j m)
  unfolding lookup add_entry
  lookup-add_entry k j v [] h = refl
  lookup-add_entry k j v ((i, w) ∷ m) h =
      ground (arith, lookup-add_entry k j v m, e.same_iff i k, e.same_iff i j, e.same_iff k j)

  pub length-adjust : (k : K) (f : V → V) (m : Assoc K V) → length (adjust k f m) ≡ length m
  unfolding adjust
  length-adjust k f [] = refl
  length-adjust k f ((j, v) ∷ m) = ground (arith, length-adjust k f m)

  pub length-add_entry : (k : K) (v : V) (m : Assoc K V) → length (add_entry k v m) ≡ length m + 1
  unfolding add_entry
  length-add_entry k v [] = omega arith
  length-add_entry k v (x ∷ m) = omega (arith, length-add_entry k v m)

  -- The keys are distinct, as those of a Go map are.
  abbrev pub IsMap : Assoc K V → Type (ℓ ⊔ κ)
  IsMap [] = Unit
  IsMap ((k, v) ∷ m) = (lookup k m ≡ none) × IsMap m

  adjust-none :
      (k j : K) (f : V → V) (m : Assoc K V) → lookup j m ≡ none → lookup j (adjust k f m) ≡ none
  adjust-none k j f m h = rw (lookup-adjust k j f m, h)

  pub adjust-IsMap : (k : K) (f : V → V) (m : Assoc K V) → IsMap m → IsMap (adjust k f m)
  unfolding adjust
  adjust-IsMap k f [] h = tt
  adjust-IsMap k f ((j, v) ∷ m) (h, hs) =
      if-both IsMap (e.same j k) _ _ (h, hs) (adjust-none k j f m h, adjust-IsMap k f m hs)

  add_entry-none :
      (k j : K) (v : V) (m : Assoc K V)
      → lookup j m ≡ none
      → e.same k j ≡ false
      → lookup j (add_entry k v m) ≡ none
  unfolding lookup add_entry
  add_entry-none k j v [] h n = rw n
  add_entry-none k j v ((i, w) ∷ m) h n = ground (arith, add_entry-none k j v m)

  pub add_entry-IsMap :
      (k : K) (v : V) (m : Assoc K V) → lookup k m ≡ none → IsMap m → IsMap (add_entry k v m)
  unfolding add_entry lookup
  add_entry-IsMap k v [] h d = (refl, tt)
  add_entry-IsMap k v ((j, w) ∷ m) h (d, ds) = (
    add_entry-none k j v m d (ground (arith, e.same_iff k j, e.same_iff j k)),
    add_entry-IsMap k v m (ground arith) ds,
  )

  abbrev pub keys_distinct : Assoc K V → Bool
  keys_distinct [] = true
  keys_distinct ((k, v) ∷ m) = every (λ ((j, w) : K × V). not (e.same j k)) m && keys_distinct m

  no_key :
      (k : K) (m : Assoc K V)
      → every (λ ((j, w) : K × V). not (e.same j k)) m ≡ true
      → lookup k m ≡ none
  unfolding lookup
  no_key k [] h = refl
  no_key k ((j, w) ∷ m) h = ground (arith, no_key k m)

  pub keys_distinct-IsMap : (m : Assoc K V) → keys_distinct m ≡ true → IsMap m
  keys_distinct-IsMap [] h = tt
  keys_distinct-IsMap ((k, v) ∷ m) h =
      (no_key k m (ground arith), keys_distinct-IsMap m (ground arith))
