-- ===== src/Mapper/Audit.antt =====
-- pkg/mapper/mapper.go: what a Windows event from Map looks like to whoever reads it.
use cee_exporter.Common.{
  ℕ, suc, ◌^◌, ◌≤◌, ◌<◌, ◌≡◌, refl, Bool, true, ◌&&◌, Option, none, some, [], ◌++◌, leb, ltb,
  if◌then◌else◌, Bytes, codes, length, bytes_eq, arith, every, ℤ, pos, negsuc,
}
use cee_exporter.Common.Assoc.{bytes_key, lookup}
use cee_exporter.Parser.Text.{format_uint, digits_onto}
use cee_exporter.Parser.Event.{CepaEvent, Time}
use cee_exporter.Parser.CheckEvent.Number.{is_empty}
use cee_exporter.Mapper.{
  WindowsEvent, map_event, low_bits, cepa_to_event_id, access_mask_for, entry_or,
}
use cee_exporter.Mapper.Tables.{agrees, ids-every, has_entry, lookup-every, mapped_agrees}

-- An int64.
abbrev pub fits64 : ℤ → Bool
fits64 (pos n) = ltb n (2 ^ 63)
fits64 (negsuc n) = ltb n (2 ^ 63)

-- The counters of a parsed event are int64 values.
abbrev pub in_range : CepaEvent → Bool
in_range e =
    fits64 e.bytes_read
    && fits64 e.bytes_written
    && fits64 e.number_of_reads
    && fits64 e.number_of_writes

-- The event ID goes with the access mask: 4660 with DELETE, 4670 with WRITE_DAC or WRITE_OWNER,
-- 4658 with no access, 4663 with any mask but those of 4660 and 4670. The counters are int64
-- values, and the handle has at most three digits.
unfoldable pub is_audit : WindowsEvent → Bool
is_audit e =
    agrees e.event_id e.access_mask
    && fits64 e.bytes_read
    && fits64 e.bytes_written
    && fits64 e.number_of_reads
    && fits64 e.number_of_writes
    && leb (length e.handle_id) 5

masks-every : every (λ (t, mask). has_entry (lookup t cepa_to_event_id)) access_mask_for ≡ true
unfolding lookup bytes_eq codes cepa_to_event_id access_mask_for
masks-every = refl

-- A type without an event ID has no access mask.
unmapped-mask :
    (t : Bytes)
    → lookup t cepa_to_event_id ≡ none
    → entry_or t access_mask_for (codes "0x0") ≡ codes "0x0"
unfolding entry_or
unmapped-mask t h = next (lookup t access_mask_for) (λ v e.
    lookup-every (λ t v. has_entry (lookup t cepa_to_event_id)) access_mask_for t v masks-every e)
  where
    next :
        (o : Option Bytes)
        → ((v : Bytes) → o ≡ some v → has_entry (lookup t cepa_to_event_id) ≡ true)
        → (elim o [ none ↦ codes "0x0" | some v ↦ if is_empty v then codes "0x0" else v ])
          ≡ codes "0x0"
    next none k = refl
    next (some v) k = absurd (ground (arith, k v refl, h))

default-agrees : agrees 4663 (codes "0x0") ≡ true
unfolding codes bytes_eq
default-agrees = refl

-- The ID and the mask of every type.
type-agrees :
    (t : Bytes)
    → agrees
        (elim (lookup t cepa_to_event_id) [ none ↦ 4663 | some id ↦ id ])
        (entry_or t access_mask_for (codes "0x0"))
      ≡ true
type-agrees t = next (lookup t cepa_to_event_id) refl
  where
    next :
        (o : Option ℕ)
        → lookup t cepa_to_event_id ≡ o
        → agrees (elim o [ none ↦ 4663 | some id ↦ id ]) (entry_or t access_mask_for (codes "0x0"))
          ≡ true
    next none e = rw (unmapped-mask t e) default-agrees
    next (some id) e = lookup-every mapped_agrees cepa_to_event_id t id ids-every e

low_bits-lt : (t : Time) → low_bits t < 4096
unfolding low_bits
low_bits-lt t = ground arith

three_digits : (n fuel : ℕ) → n < 4096 → length (digits_onto 16 (suc (suc (suc fuel))) n []) ≤ 3
unfolding digits_onto
three_digits n fuel h = ground arith

handle-length : (n : ℕ) → n < 4096 → length (codes "0x" ++ format_uint 16 n) ≤ 5
unfolding format_uint codes
handle-length n h = omega (arith, three_digits n 61 h)

leb-true : (a b : ℕ) → a ≤ b → leb a b ≡ true
leb-true a b h = ground arith

-- Every event with int64 counters is mapped to such a Windows event, whatever its type is.
pub map_event-is_audit :
    (os_hostname : Bytes) (e : CepaEvent) (hostname : Bytes)
    → in_range e ≡ true
    → is_audit (map_event os_hostname e hostname) ≡ true
unfolding is_audit map_event
map_event-is_audit os_hostname e hostname h =
    rw
      (
        type-agrees e.event_type,
        leb-true _ 5 (handle-length (low_bits e.timestamp) (low_bits-lt e.timestamp)),
      )
      (ground (arith, h))
