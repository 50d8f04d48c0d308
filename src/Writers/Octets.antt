-- ===== src/Writers/Octets.antt =====
-- The octet counting of pkg/evtx/writer_syslog.go (RFC 6587), read back.
use mathlib.Core.List.{append_assoc, append-nil}
use mathlib.Core.Option
use cee_exporter.Common.{
  ℕ, zero, suc, ◌/◌, ◌%◌, ◌^◌, ◌≤◌, ◌<◌, ◌≡◌, refl, sym, ap, ◌∙◌, Bool, true, false, not, Option,
  none, some, List, [], ◌∷◌, ◌++◌, ltb, leb, ◌==◌, if◌then◌else◌, Bytes, arith, every, length, take,
  drop, take_append, drop_append, length-append, Bool-cases, inl, inr, All, if-both,
}
use cee_exporter.Parser.Text.{
  Parsed, value, syntax, range, parse_uint, format_uint, digits_onto, digit_char,
}
use cee_exporter.Parser.Text.NumberRoundTrip.{parse_uint-format, ten_IsBase}
use cee_exporter.Writers.{frame_tcp, syslog_frames}

-- What stands before the first space, after the part read so far, and what follows it.
unfoldable pub split_space : Bytes → Bytes → Option (Bytes × Bytes)
split_space part [] = none
split_space part (c ∷ s) = elim (c == b' ') [
  | true ↦ some (part, s)
  | false ↦ split_space (part ++ c ∷ []) s
]

-- A payload of the length that was announced, and the stream after it.
unfoldable pub counted : Parsed → Bytes → Option (Bytes × Bytes)
counted (value n) s = if leb n (length s) then some (take n s, drop n s) else none
counted syntax s = none
counted range s = none

unfoldable pub announced : Option (Bytes × Bytes) → Option (Bytes × Bytes)
announced none = none
announced (some (digits, rest)) = counted (parse_uint 10 digits) rest

-- One frame: MSG-LEN SP SYSLOG-MSG.
abbrev pub read_frame : Bytes → Option (Bytes × Bytes)
read_frame s = announced (split_space [] s)

-- A frame's payload before those that are read from the rest.
unfoldable pub frame_and_more :
    (Bytes → Option (List Bytes)) → Option (Bytes × Bytes) → Option (List Bytes)
frame_and_more read none = none
frame_and_more read (some (payload, rest)) = Option.map (λ ps. payload ∷ ps) (read rest)

-- The payloads of a whole stream, at most as many as the fuel.
unfoldable pub read_frames : ℕ → Bytes → Option (List Bytes)
read_frames fuel [] = some []
read_frames zero (c ∷ s) = none
read_frames (suc fuel) (c ∷ s) = frame_and_more (λ rest. read_frames fuel rest) (read_frame (c ∷ s))

abbrev has_no_space : Bytes → Bool
has_no_space = every (λ c. not (c == b' '))

digits_onto-no_space :
    (fuel n : ℕ) (s : Bytes) → has_no_space s ≡ true → has_no_space (digits_onto 10 fuel n s) ≡ true
unfolding digits_onto
digits_onto-no_space zero n s h = h
digits_onto-no_space (suc fuel) n s h =
    let h' : has_no_space (digit_char (n % 10) ∷ s) ≡ true = ground (arith, h) in
    if-both (λ t. has_no_space t ≡ true) (ltb n 10) _ _ h' (digits_onto-no_space fuel (n / 10) _ h')

format_uint-no_space : (n : ℕ) → has_no_space (format_uint 10 n) ≡ true
unfolding format_uint
format_uint-no_space n = digits_onto-no_space 64 n [] refl

split_space-part :
    (part digits rest : Bytes)
    → has_no_space digits ≡ true
    → split_space part (digits ++ b' ' ∷ rest) ≡ some (part ++ digits, rest)
unfolding split_space
split_space-part part [] rest h = ap (λ x. some (x, rest)) (sym (append-nil part))
split_space-part part (c ∷ digits) rest h = elim (Bool-cases (c == b' ')) [
  | inl e ↦ ground (arith, e, h)
  | inr e ↦
      rw (e, split_space)
        (split_space-part (part ++ c ∷ []) digits rest (ground (arith, h))
          ∙ ap (λ x. some (x, rest)) (append_assoc part (c ∷ []) digits))
]

abbrev framed : Bytes → Bytes
framed p = format_uint 10 (length p) ++ b' ' ∷ p

counted_append : (p rest : Bytes) → counted (value (length p)) (p ++ rest) ≡ some (p, rest)
unfolding counted
counted_append p rest =
    rw (take_append p rest, drop_append p rest) (ground (arith, length-append p rest))

read_frame-framed :
    (p rest : Bytes) → length p < 2 ^ 64 → read_frame (framed p ++ rest) ≡ some (p, rest)
unfolding announced
read_frame-framed p rest h =
    ap announced (
      ap (split_space []) (append_assoc (format_uint 10 (length p)) (b' ' ∷ p) rest)
      ∙ split_space-part [] (format_uint 10 (length p)) (p ++ rest)
          (format_uint-no_space (length p)))
    ∙ ap (λ o. counted o (p ++ rest)) (parse_uint-format 10 (length p) ten_IsBase h)
    ∙ counted_append p rest

frame_tcp-framed : (dst p : Bytes) → frame_tcp dst p ≡ dst ++ framed p
unfolding frame_tcp
frame_tcp-framed dst p = append_assoc dst (format_uint 10 (length p)) (b' ' ∷ p)

syslog_frames-onto :
    (frame : Bytes) (ps : List Bytes) → syslog_frames frame ps ≡ frame ++ syslog_frames [] ps
unfolding syslog_frames
syslog_frames-onto frame [] = sym (append-nil frame)
syslog_frames-onto frame (p ∷ ps) =
    ap (λ x. syslog_frames x ps) (frame_tcp-framed frame p)
    ∙ syslog_frames-onto (frame ++ framed p) ps
    ∙ append_assoc frame (framed p) (syslog_frames [] ps)
    ∙ ap (λ x. frame ++ x)
        (sym
          (ap (λ x. syslog_frames x ps) (frame_tcp-framed [] p) ∙ syslog_frames-onto (framed p) ps))

syslog_frames-cons :
    (p : Bytes) (ps : List Bytes) → syslog_frames [] (p ∷ ps) ≡ framed p ++ syslog_frames [] ps
unfolding syslog_frames
syslog_frames-cons p ps =
    ap (λ x. syslog_frames x ps) (frame_tcp-framed [] p) ∙ syslog_frames-onto (framed p) ps

read_frames-step :
    (fuel : ℕ) (s : Bytes)
    → 0 < length s
    → read_frames (suc fuel) s ≡ frame_and_more (λ rest. read_frames fuel rest) (read_frame s)
unfolding read_frames
read_frames-step fuel [] h = ground arith
read_frames-step fuel (c ∷ s) h = refl

framed-length : (p rest : Bytes) → 0 < length (framed p ++ rest)
framed-length p rest =
    omega
      (arith, length-append (framed p) rest, length-append (format_uint 10 (length p)) (b' ' ∷ p))

-- The octet-counted stream of a syslog batch is read back, payload by payload and to its end, by a
-- reader that knows the count before the first space only, whatever bytes the payloads hold, where
-- no payload has 2^64 bytes or more.
pub read_frames-syslog :
    (fuel : ℕ) (ps : List Bytes)
    → length ps ≤ fuel
    → All (λ p. length p < 2 ^ 64) ps
    → read_frames fuel (syslog_frames [] ps) ≡ some ps
unfolding read_frames syslog_frames frame_and_more
read_frames-syslog fuel [] l h = refl
read_frames-syslog zero (p ∷ ps) l h = ground arith
read_frames-syslog (suc fuel) (p ∷ ps) l (h, hs) =
    let rest = syslog_frames [] ps in
    ap (read_frames (suc fuel)) (syslog_frames-cons p ps)
    ∙ read_frames-step fuel (framed p ++ rest) (framed-length p rest)
    ∙ ap (frame_and_more (λ rest. read_frames fuel rest)) (read_frame-framed p rest h)
    ∙ ap (Option.map (λ ps. p ∷ ps)) (read_frames-syslog fuel ps (omega (arith, l)) hs)
