-- ===== src/Parser/Classify/Agreement.antt =====
-- Classify of pkg/parser/classify.go against the predicates of pkg/parser on a raw body.
use cee_exporter.Common.{
  ◌≡◌, ◌≢◌, refl, Bool, true, false, Option, none, some, Bytes, codes, bytes_eq, bytes_eq_iff,
  arith, Bool-cases, Option-cases, inl, inr, every,
}
use cee_exporter.Parser.Utf16.{decode_body}
use cee_exporter.Parser.Classify.Exclusive.{root_is_unique, is_name_byte}
use cee_exporter.Parser.Classify.{
  Dialect, dialect_unknown, dialect_register_request, dialect_heart_beat_request,
  dialect_check_file_request, dialect_check_event_request, root_is, classify_decoded, classify,
  root_element_is, is_register_request, is_heart_beat_request, is_check_file_request,
  is_check_event_request,
}

-- What the four predicates say of a body.
pub record Answers : Type 0 where
  pub register : Bool
  pub heart_beat : Bool
  pub check_file : Bool
  pub check_event : Bool

abbrev pub asked : Bytes → Answers
asked body = record {
  register = is_register_request body;
  heart_beat = is_heart_beat_request body;
  check_file = is_check_file_request body;
  check_event = is_check_event_request body;
}

abbrev all_no : Answers
all_no = record { register = false; heart_beat = false; check_file = false; check_event = false }

-- The one predicate that holds of a payload of the dialect.
abbrev pub answers_of : Dialect → Answers
answers_of dialect_unknown = all_no
answers_of dialect_register_request = record all_no { register = true }
answers_of dialect_heart_beat_request = record all_no { heart_beat = true }
answers_of dialect_check_file_request = record all_no { check_file = true }
answers_of dialect_check_event_request = record all_no { check_event = true }

abbrev pub expected : Option (Dialect × Bytes) → Answers
expected none = all_no
expected (some (d, decoded)) = answers_of d

-- The predicates on a decoded body.
abbrev asked_decoded : Bytes → Answers
asked_decoded d = record {
  register = root_is d (codes "RegisterRequest");
  heart_beat = root_is d (codes "HeartBeatRequest");
  check_file = root_is d (codes "CheckFileRequest");
  check_event = root_is d (codes "CheckEventRequest");
}

other-false :
    (d n m : Bytes)
    → every is_name_byte n ≡ true
    → every is_name_byte m ≡ true
    → bytes_eq n m ≡ false
    → root_is d n ≡ true
    → root_is d m ≡ false
other-false d n m hn hm ne h = elim (Bool-cases (root_is d m)) [
  | inr f ↦ f
  | inl t ↦ absurd (differ n m ne (root_is_unique d n m hn hm h t))
]
  where
    differ : (n m : Bytes) → bytes_eq n m ≡ false → n ≢ m
    differ n m f = ground (arith, bytes_eq_iff n m)

-- The root element of one dialect rules out those of the others.
abbrev Only : Bytes → Bytes → Bytes → Bytes → Bytes → Type 0
Only d n a b c =
    root_is d n ≡ true → (root_is d a ≡ false) × (root_is d b ≡ false) × (root_is d c ≡ false)

register-Only :
    (d : Bytes)
    → Only d
        (codes "RegisterRequest")
        (codes "HeartBeatRequest")
        (codes "CheckFileRequest")
        (codes "CheckEventRequest")
unfolding codes bytes_eq
register-Only d h = (
  other-false d (codes "RegisterRequest") (codes "HeartBeatRequest") refl refl refl h,
  other-false d (codes "RegisterRequest") (codes "CheckFileRequest") refl refl refl h,
  other-false d (codes "RegisterRequest") (codes "CheckEventRequest") refl refl refl h,
)

heart_beat-Only :
    (d : Bytes)
    → Only d
        (codes "HeartBeatRequest")
        (codes "RegisterRequest")
        (codes "CheckFileRequest")
        (codes "CheckEventRequest")
unfolding codes bytes_eq
heart_beat-Only d h = (
  other-false d (codes "HeartBeatRequest") (codes "RegisterRequest") refl refl refl h,
  other-false d (codes "HeartBeatRequest") (codes "CheckFileRequest") refl refl refl h,
  other-false d (codes "HeartBeatRequest") (codes "CheckEventRequest") refl refl refl h,
)

check_file-Only :
    (d : Bytes)
    → Only d
        (codes "CheckFileRequest")
        (codes "RegisterRequest")
        (codes "HeartBeatRequest")
        (codes "CheckEventRequest")
unfolding codes bytes_eq
check_file-Only d h = (
  other-false d (codes "CheckFileRequest") (codes "RegisterRequest") refl refl refl h,
  other-false d (codes "CheckFileRequest") (codes "HeartBeatRequest") refl refl refl h,
  other-false d (codes "CheckFileRequest") (codes "CheckEventRequest") refl refl refl h,
)

check_event-Only :
    (d : Bytes)
    → Only d
        (codes "CheckEventRequest")
        (codes "RegisterRequest")
        (codes "HeartBeatRequest")
        (codes "CheckFileRequest")
unfolding codes bytes_eq
check_event-Only d h = (
  other-false d (codes "CheckEventRequest") (codes "RegisterRequest") refl refl refl h,
  other-false d (codes "CheckEventRequest") (codes "HeartBeatRequest") refl refl refl h,
  other-false d (codes "CheckEventRequest") (codes "CheckFileRequest") refl refl refl h,
)

asked-answers : (d : Bytes) → asked_decoded d ≡ answers_of (classify_decoded d)
unfolding classify_decoded
asked-answers d = elim (Bool-cases (root_is d (codes "RegisterRequest"))) [
  | inl r ↦ let (x, y, z) = register-Only d r in rw (r, x, y, z) refl
  | inr r ↦ elim (Bool-cases (root_is d (codes "HeartBeatRequest"))) [
    | inl h ↦ let (x, y, z) = heart_beat-Only d h in rw (r, h, y, z) refl
    | inr h ↦ elim (Bool-cases (root_is d (codes "CheckFileRequest"))) [
      | inl f ↦ let (x, y, z) = check_file-Only d f in rw (r, h, f, z) refl
      | inr f ↦ elim (Bool-cases (root_is d (codes "CheckEventRequest"))) [
        | inl v ↦ rw (r, h, f, v) refl
        | inr v ↦ rw (r, h, f, v) refl
      ]
    ]
  ]
]

-- For every body, the one pass of Classify agrees with the four predicates, each of which decodes
-- the body on its own: a dialect is found exactly if its predicate holds and the others do not, the
-- unknown dialect exactly if none holds, and none holds of a body that cannot be decoded.
pub classify-agrees : (body : Bytes) → asked body ≡ expected (classify body)
unfolding classify root_element_is is_register_request is_heart_beat_request is_check_file_request
    is_check_event_request
classify-agrees body = elim (Option-cases (decode_body body)) [
  | inl n ↦ rw (n, root_element_is, classify) refl
  | inr (d, e) ↦ rw (e, root_element_is, classify) (asked-answers d)
]
