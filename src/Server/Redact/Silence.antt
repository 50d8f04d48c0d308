-- ===== src/Server/Redact/Silence.antt =====
-- pkg/server/redact.go: what a log line may show of a payload.
use cee_exporter.Common.{
  ℕ, ◌≡◌, refl, sym, ap, ◌∙◌, Bool, true, false, not, [], ◌∷◌, ◌++◌, ◌==◌, leb, Bytes, length,
  arith, every, Bool-cases, inl, inr, ◌⊎◌,
}
use cee_exporter.Server.Redact.{
  Mode, outside, inside, in_value, Step, go, cut, redact_step, redact_loop, bounded, redact_payload,
  max_redacted_payload,
}

-- No byte of the value is its quote.
abbrev pub is_value : ℕ → Bytes → Bool
is_value quote v = every (λ c. not (c == quote)) v

-- The loop passes a value without a trace.
redact_loop-value :
    (quote : ℕ) (v rest out : Bytes)
    → is_value quote v ≡ true
    → redact_loop (in_value quote) out (v ++ rest) ≡ redact_loop (in_value quote) out rest
unfolding redact_loop redact_step
redact_loop-value quote [] rest out h = refl
redact_loop-value quote (c ∷ v) rest out h = elim (Bool-cases (c == quote)) [
  | inl e ↦ ground (arith, e, h)
  | inr e ↦
      rw (e, redact_loop, redact_step) (redact_loop-value quote v rest out (ground (arith, h)))
]

-- The output of the loop, from any point in a tag, does not depend on a quoted value.
redact_loop-blind :
    (quote : ℕ) (v w rest out : Bytes)
    → (quote ≡ b'"') ⊎ (quote ≡ 0x27)
    → is_value quote v ≡ true
    → is_value quote w ≡ true
    → redact_loop inside out (quote ∷ v ++ quote ∷ rest)
      ≡ redact_loop inside out (quote ∷ w ++ quote ∷ rest)
unfolding redact_loop redact_step
redact_loop-blind quote v w rest out q h k =
    elim (Bool-cases (leb max_redacted_payload (length out))) [
      | inl e ↦ rw (e, redact_loop, redact_step)
      | inr e ↦ enter (redact_step inside quote out) (step-value quote out q e) (
          redact_loop-value quote v (quote ∷ rest) out h
          ∙ sym (redact_loop-value quote w (quote ∷ rest) out k))
    ]
  where
    step-value :
        (quote : ℕ) (out : Bytes)
        → (quote ≡ b'"') ⊎ (quote ≡ 0x27)
        → leb max_redacted_payload (length out) ≡ false
        → redact_step inside quote out ≡ go (in_value quote) out
    step-value quote out (inl e) n = rw (e, redact_step, n)
    step-value quote out (inr e) n = rw (e, redact_step, n)

    enter :
        (st : Step)
        → st ≡ go (in_value quote) out
        → redact_loop (in_value quote) out (v ++ quote ∷ rest)
          ≡ redact_loop (in_value quote) out (w ++ quote ∷ rest)
        → (elim st [
          | cut out' ↦ (out', true)
          | go m' out' ↦ redact_loop m' out' (v ++ quote ∷ rest)
        ])
          ≡ (elim st [
            | cut out' ↦ (out', true)
            | go m' out' ↦ redact_loop m' out' (w ++ quote ∷ rest)
          ])
    enter st e g = rw e g

-- Where the loop stands after a prefix.
unfoldable pub reach : Mode → Bytes → Bytes → Step
reach m out [] = go m out
reach m out (c ∷ s) = elim (redact_step m c out) [
  | cut out' ↦ cut out'
  | go m' out' ↦ reach m' out' s
]

abbrev mode_of : Step → Mode
mode_of (go m out) = m
mode_of (cut out) = outside

redact_loop-reach :
    (m : Mode) (out pre s t : Bytes)
    → ((out' : Bytes) → redact_loop inside out' s ≡ redact_loop inside out' t)
    → (found : Bytes) → reach m out pre ≡ go inside found
    → redact_loop m out (pre ++ s) ≡ redact_loop m out (pre ++ t)
unfolding redact_loop reach
redact_loop-reach m out [] s t f found e = rw (ap mode_of e) (f out)
redact_loop-reach m out (c ∷ pre) s t f found e =
    on (redact_step m c out) e (λ m' out'. redact_loop-reach m' out' pre s t f found)
  where
    on :
        (st : Step)
        → (elim st [ cut out' ↦ cut out' | go m' out' ↦ reach m' out' pre ]) ≡ go inside found
        → ((m' : Mode) (out' : Bytes)
            → reach m' out' pre ≡ go inside found
            → redact_loop m' out' (pre ++ s) ≡ redact_loop m' out' (pre ++ t))
        → (elim st [ cut out' ↦ (out', true) | go m' out' ↦ redact_loop m' out' (pre ++ s) ])
          ≡ (elim st [ cut out' ↦ (out', true) | go m' out' ↦ redact_loop m' out' (pre ++ t) ])
    on (cut out') e g = refl
    on (go m' out') e g = g m' out' e

-- The diagnostic of a payload is the same whatever a quoted attribute value holds: where the scan
-- of a prefix ends inside a tag, two values without their quote, in double or in single quotes,
-- give one log line.
pub redact_payload-blind :
    (to_valid_utf8 : Bytes → Bytes) (pre rest v w found : Bytes) (quote : ℕ)
    → reach outside [] pre ≡ go inside found
    → (quote ≡ b'"') ⊎ (quote ≡ 0x27)
    → is_value quote v ≡ true
    → is_value quote w ≡ true
    → redact_payload to_valid_utf8 (pre ++ (quote ∷ v ++ quote ∷ rest))
      ≡ redact_payload to_valid_utf8 (pre ++ (quote ∷ w ++ quote ∷ rest))
unfolding redact_payload
redact_payload-blind f pre rest v w found quote r q h k = ap (bounded f) (
    redact_loop-reach outside [] pre (quote ∷ v ++ quote ∷ rest) (quote ∷ w ++ quote ∷ rest)
      (λ out. redact_loop-blind quote v w rest out q h k) found r)
