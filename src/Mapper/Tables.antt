-- ===== src/Mapper/Tables.antt =====
-- pkg/mapper/mapper.go with the tables of pkg/parser: every type a parser names is mapped, and the
-- three tables of the mapper tell one story.
use mathlib.Core.Bool.{false≢true}
use cee_exporter.Common.{
  not, ℕ, ◌≡◌, refl, ap, ◌⊎◌, inl, inr, Bool, true, false, ◌&&◌, ◌||◌, Option, none, some, [], ◌∷◌,
  ◌==◌, if◌then◌else◌, Bytes, codes, bytes_eq, bytes_eq_iff, arith, every,
}
use cee_exporter.Common.Assoc.{bytes_key, Assoc, lookup}
use cee_exporter.Parser.CheckEvent.{Table, is_empty, code_name, cee_event_type}
use cee_exporter.Parser.OneFs.{onefs_event_type}
use cee_exporter.Mapper.{cepa_to_event_id, access_mask_for, access_desc_for, entry_or}

abbrev pub has_entry : Option ℕ → Bool
has_entry none = false
has_entry (some n) = true

abbrev not_blank : Option Bytes → Bool
not_blank none = false
not_blank (some v) = not (is_empty v)

-- A code's name passes a test that every entry passes.
code_name-every :
    (p : ℕ → Bytes → Bool) (t : Table) (n : ℕ) (name : Bytes)
    → every (λ (k, v). p k v) t ≡ true
    → code_name n t ≡ some name
    → p n name ≡ true
unfolding code_name
code_name-every p [] n name h g = ground arith
code_name-every p ((k, v) ∷ t) n name h g = ground (arith, code_name-every p t n name)

-- The entry of a key passes a test that every entry passes.
pub lookup-every {κ} :
    {V : Type κ} (p : Bytes → V → Bool) (m : Assoc Bytes V) (k : Bytes) (v : V)
    → every (λ (j, w). p j w) m ≡ true
    → lookup k m ≡ some v
    → p k v ≡ true
unfolding lookup
lookup-every p [] k v h g = ground arith
lookup-every p ((j, w) ∷ m) k v h g = ground (arith, bytes_eq_iff j k, lookup-every p m k v)

-- Whether the code has this name in a table.
abbrev names : Table → ℕ → Bytes → Bool
names t n name = elim (code_name n t) [ none ↦ false | some v ↦ bytes_eq v name ]

names-name : (t : Table) (n : ℕ) (name : Bytes) → names t n name ≡ true → code_name n t ≡ some name
names-name t n name h = go (code_name n t) h
  where
    go :
        (o : Option Bytes)
        → (elim o [ none ↦ false | some v ↦ bytes_eq v name ]) ≡ true
        → o ≡ some name
    go none h = absurd (false≢true h)
    go (some v) h = ap some ((bytes_eq_iff v name).0 h)

onefs-every : every (λ (k, v). names cee_event_type k v) onefs_event_type ≡ true
unfolding code_name bytes_eq cee_event_type onefs_event_type codes
onefs-every = refl

-- A code that OneFS has been seen to use carries in Dell CEE's table the name that OneFS's table
-- gives it.
pub onefs_in_cee :
    (n : ℕ) (name : Bytes)
    → code_name n onefs_event_type ≡ some name
    → code_name n cee_event_type ≡ some name
onefs_in_cee n name h =
    names-name cee_event_type n name
      (code_name-every (names cee_event_type) onefs_event_type n name onefs-every h)

-- A type with an entry in each of the three tables, none of them the empty string.
abbrev pub is_mapped : Bytes → Bool
is_mapped t =
    has_entry (lookup t cepa_to_event_id)
    && not_blank (lookup t access_mask_for)
    && not_blank (lookup t access_desc_for)

cee-every : every (λ (k, v). is_mapped v) cee_event_type ≡ true
unfolding lookup bytes_eq is_empty cee_event_type codes cepa_to_event_id access_mask_for
    access_desc_for
cee-every = refl

-- Every name that a table of the parsers holds has its own event ID, access mask and access
-- description: none of them falls back to the mapper's defaults.
pub parsed_names-mapped :
    (n : ℕ) (name : Bytes)
    → (code_name n cee_event_type ≡ some name) ⊎ (code_name n onefs_event_type ≡ some name)
    → is_mapped name ≡ true
parsed_names-mapped n name (inl h) =
    code_name-every (λ k v. is_mapped v) cee_event_type n name cee-every h
parsed_names-mapped n name (inr h) =
    code_name-every (λ k v. is_mapped v) cee_event_type n name cee-every (onefs_in_cee n name h)

-- Which access masks go with an event ID.
abbrev pub agrees : ℕ → Bytes → Bool
agrees id mask =
    if id == 4660
    then bytes_eq mask (codes "0x10000")
    else if id == 4670
    then bytes_eq mask (codes "0x40000") || bytes_eq mask (codes "0x80000")
    else if id == 4658
    then bytes_eq mask (codes "0x0")
    else id == 4663
      && not (bytes_eq mask (codes "0x10000"))
      && not (bytes_eq mask (codes "0x40000"))
      && not (bytes_eq mask (codes "0x80000"))

-- The ID and the mask of an event type, with the defaults of `Map`.
abbrev pub mapped_agrees : Bytes → ℕ → Bool
mapped_agrees t id = agrees id (entry_or t access_mask_for (codes "0x0"))

pub ids-every : every (λ (t, id). mapped_agrees t id) cepa_to_event_id ≡ true
unfolding lookup bytes_eq is_empty entry_or codes cepa_to_event_id access_mask_for
ids-every = refl
