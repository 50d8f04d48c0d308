-- ===== src/Writers/Messages/Gelf.antt =====
-- The fields of a message of pkg/evtx/writer_gelf.go against the GELF 1.1 format.
use cee_exporter.Common.{
  ℕ, ◌≤◌, ◌≡◌, refl, sym, Bool, true, false, not, ◌&&◌, ◌||◌, none, some, [], ◌∷◌, ◌==◌,
  if◌then◌else◌, Bytes, codes, bytes_eq, length, take, take_all, every, is_positive, arith,
  Bool-cases, inl, inr, leb,
}
use cee_exporter.Common.Assoc.{Assoc, bytes_key, lookup, IsMap, keys_distinct-IsMap}
use cee_exporter.Mapper.{WindowsEvent}
use cee_exporter.Writers.{short_message}
use cee_exporter.Writers.Messages.{
  Json, text, number, gelf_fields, gelf_short_message, when_positive,
}

-- A key of the format, or an additional one: it begins with an underscore, and `_id` is reserved.
unfoldable pub is_gelf_key : Bytes → Bool
is_gelf_key [] = false
is_gelf_key (c ∷ k) =
    c == b'_' && not (bytes_eq k (codes "id"))
    || bytes_eq (c ∷ k) (codes "version")
    || bytes_eq (c ∷ k) (codes "host")
    || bytes_eq (c ∷ k) (codes "short_message")
    || bytes_eq (c ∷ k) (codes "timestamp")
    || bytes_eq (c ∷ k) (codes "level")

-- What the format asks of a message, and what the counters of an event do to it.
pub record IsGelf (e : WindowsEvent) (fields : Assoc Bytes Json) : Type 0 where
  pub keys : every (λ ((k, v) : Bytes × Json). is_gelf_key k) fields ≡ true
  pub distinct : IsMap fields
  pub version : lookup (codes "version") fields ≡ some (text (codes "1.1"))
  pub host : lookup (codes "host") fields ≡ some (text e.computer)
  pub message : lookup (codes "short_message") fields ≡ some (text (take 250 (short_message e)))
  pub read :
      lookup (codes "_bytes_read") fields
      ≡ (if is_positive e.bytes_read then some (number e.bytes_read) else none)
  pub written :
      lookup (codes "_bytes_written") fields
      ≡ (if is_positive e.bytes_written then some (number e.bytes_written) else none)

gelf_short_message_lem : (e : WindowsEvent) → gelf_short_message e ≡ take 250 (short_message e)
unfolding gelf_short_message
gelf_short_message_lem e = elim (Bool-cases (leb (length (short_message e)) 250)) [
  | inl h ↦ rw h (sym (take_all 250 (short_message e) (within (length (short_message e)) h)))
  | inr h ↦ rw h refl
]
  where
    within : (n : ℕ) → leb n 250 ≡ true → n ≤ 250
    within n h = ground arith

-- Every message is a GELF 1.1 message: the keys are those of the format or additional ones, none
-- twice, the message is the first 250 bytes of the event's, and the byte counters are there exactly
-- if they are positive.
pub gelf_fields-IsGelf : (e : WindowsEvent) → IsGelf e (gelf_fields e)
unfolding gelf_fields when_positive is_gelf_key lookup bytes_eq codes
gelf_fields-IsGelf e = elim (Bool-cases (is_positive e.bytes_read)) [
  | inl r ↦ elim (Bool-cases (is_positive e.bytes_written)) [
    | inl w ↦ record {
      keys = rw (r, w) refl;
      distinct = keys_distinct-IsMap (gelf_fields e) (rw (r, w) refl);
      version = refl;
      host = refl;
      message = rw (gelf_short_message_lem e) refl;
      read = rw r refl;
      written = rw (r, w) refl;
    }
    | inr w ↦ record {
      keys = rw (r, w) refl;
      distinct = keys_distinct-IsMap (gelf_fields e) (rw (r, w) refl);
      version = refl;
      host = refl;
      message = rw (gelf_short_message_lem e) refl;
      read = rw r refl;
      written = rw (r, w) refl;
    }
  ]
  | inr r ↦ elim (Bool-cases (is_positive e.bytes_written)) [
    | inl w ↦ record {
      keys = rw (r, w) refl;
      distinct = keys_distinct-IsMap (gelf_fields e) (rw (r, w) refl);
      version = refl;
      host = refl;
      message = rw (gelf_short_message_lem e) refl;
      read = rw (r, w) refl;
      written = rw (r, w) refl;
    }
    | inr w ↦ record {
      keys = rw (r, w) refl;
      distinct = keys_distinct-IsMap (gelf_fields e) (rw (r, w) refl);
      version = refl;
      host = refl;
      message = rw (gelf_short_message_lem e) refl;
      read = rw (r, w) refl;
      written = rw (r, w) refl;
    }
  ]
]
