-- ===== src/Cmd/Tested.antt =====
-- cmd/cee-exporter/emit_test_events.go against pkg/mapper/mapper.go: which event IDs are tested.
use cee_exporter.Common.{
  ℕ, ◌≡◌, refl, sym, ap, Bool, true, false, not, ◌||◌, Option, none, some, List, [], ◌∷◌, ◌==◌,
  if◌then◌else◌, Bytes, codes, bytes_eq, bytes_eq_iff, every, Bool-cases, inl, inr,
}
use cee_exporter.Common.Assoc.{bytes_key, lookup}
use cee_exporter.Parser.Event.{CepaEvent}
use cee_exporter.Mapper.{map_event, cepa_to_event_id}
use cee_exporter.Mapper.Tables.{lookup-every}
use cee_exporter.Cmd.{test_ids}

unfoldable pub member : ℕ → List ℕ → Bool
member n [] = false
member n (m ∷ ms) = n == m || member n ms

-- The types of events that a handle was closed with nothing written.
unfoldable pub is_close : Bytes → Bool
is_close t = bytes_eq t (codes "CEPP_CLOSE_UNMODIFIED") || bytes_eq t (codes "CEPP_CLOSE_DIRECTORY")

abbrev tests : Bytes → ℕ → Bool
tests t id = if member id test_ids then not (is_close t) else is_close t

tests-every : every (λ (t, id). tests t id) cepa_to_event_id ≡ true
unfolding member is_close bytes_eq codes cepa_to_event_id
tests-every = refl

closes_mapped :
    (lookup (codes "CEPP_CLOSE_UNMODIFIED") cepa_to_event_id ≡ some 4658)
    × (lookup (codes "CEPP_CLOSE_DIRECTORY") cepa_to_event_id ≡ some 4658)
unfolding lookup bytes_eq codes cepa_to_event_id
closes_mapped = (refl, refl)

-- A type without an entry is none of the types with one.
differs :
    (t name : Bytes)
    → lookup t cepa_to_event_id ≡ none
    → lookup name cepa_to_event_id ≡ some 4658
    → bytes_eq t name ≡ false
differs t name h k = elim (Bool-cases (bytes_eq t name)) [
  | inl e ↦
      let same = ap (λ x. lookup x cepa_to_event_id) ((bytes_eq_iff t name).0 e) in cc (h, same, k)
  | inr e ↦ e
]

if-neither : (a b : Bool) → a ≡ false → b ≡ false → (a || b) ≡ false
if-neither a b h k = rw (h, k) refl

unmapped-is_close : (t : Bytes) → lookup t cepa_to_event_id ≡ none → is_close t ≡ false
unfolding is_close
unmapped-is_close t h =
    if-neither (bytes_eq t (codes "CEPP_CLOSE_UNMODIFIED"))
      (bytes_eq t (codes "CEPP_CLOSE_DIRECTORY"))
      (differs t (codes "CEPP_CLOSE_UNMODIFIED") h closes_mapped.0)
      (differs t (codes "CEPP_CLOSE_DIRECTORY") h closes_mapped.1)

read_test : (a b : Bool) → (if a then not b else b) ≡ true → a ≡ not b
read_test true b h = sym h
read_test false b h = rw h refl

-- The ID of a mapped event is one of those that the test mode writes exactly if its type is neither
-- CEPP_CLOSE_UNMODIFIED nor CEPP_CLOSE_DIRECTORY.
pub map_event-tested :
    (os_hostname : Bytes) (e : CepaEvent) (hostname : Bytes)
    → member (map_event os_hostname e hostname).event_id test_ids ≡ not (is_close e.event_type)
unfolding map_event
map_event-tested os_hostname e hostname = next (lookup e.event_type cepa_to_event_id) refl
  where
    next :
        (o : Option ℕ)
        → lookup e.event_type cepa_to_event_id ≡ o
        → member (elim o [ none ↦ 4663 | some id ↦ id ]) test_ids ≡ not (is_close e.event_type)
    next none h = rw (unmapped-is_close e.event_type h) (unfold member in refl)
    next (some id) h =
        read_test (member id test_ids) (is_close e.event_type)
          (lookup-every tests cepa_to_event_id e.event_type id tests-every h)
