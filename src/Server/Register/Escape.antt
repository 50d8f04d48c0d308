-- ===== src/Server/Register/Escape.antt =====
-- The escaping of pkg/server/register.go: no value of the configuration can leave its attribute.
use cee_exporter.Common.{
  ℕ, zero, suc, ◌≡◌, refl, ap, ◌∙◌, Bool, true, false, not, ◌&&◌, [], ◌∷◌, ◌++◌, ◌==◌, Bytes, codes,
  arith, every, has_prefix,
}
use cee_exporter.Server.Register.{escape_byte, escape_attr}

-- A byte that ends an attribute value or its tag, or starts another.
abbrev pub is_inert : ℕ → Bool
is_inert c = not (c == b'<') && not (c == b'>') && not (c == b'"') && not (c == 0x27)

every-append :
    (p : ℕ → Bool) (xs ys : Bytes)
    → every p xs ≡ true
    → every p ys ≡ true
    → every p (xs ++ ys) ≡ true
every-append p [] ys h k = k
every-append p (x ∷ xs) ys h k = ground (arith, every-append p xs ys)

escape_byte-inert : (c : ℕ) → every is_inert (escape_byte c) ≡ true
unfolding escape_byte codes
escape_byte-inert c = ground arith

-- An escaped value holds none of the four bytes that could end the attribute or start a tag.
pub escape_attr-inert : (s : Bytes) → every is_inert (escape_attr s) ≡ true
unfolding escape_attr
escape_attr-inert [] = refl
escape_attr-inert (c ∷ s) =
    every-append is_inert (escape_byte c) (escape_attr s) (escape_byte-inert c)
      (escape_attr-inert s)

-- A reader of the five predefined entities, which keeps other bytes; the first argument counts the
-- bytes of an entity still to pass.
unfoldable pub unescape : ℕ → Bytes → Bytes
unescape k [] = []
unescape (suc k) (c ∷ s) = unescape k s
unescape zero (c ∷ s) = elim (c == b'&') [
  | false ↦ c ∷ unescape 0 s
  | true ↦ elim (has_prefix s (codes "amp;")) [
    | true ↦ b'&' ∷ unescape 4 s
    | false ↦ elim (has_prefix s (codes "lt;")) [
      | true ↦ b'<' ∷ unescape 3 s
      | false ↦ elim (has_prefix s (codes "gt;")) [
        | true ↦ b'>' ∷ unescape 3 s
        | false ↦ elim (has_prefix s (codes "quot;")) [
          | true ↦ b'"' ∷ unescape 5 s
          | false ↦ elim (has_prefix s (codes "apos;")) [
            | true ↦ 0x27 ∷ unescape 5 s
            | false ↦ c ∷ unescape 0 s
          ]
        ]
      ]
    ]
  ]
]

unescape-byte : (c : ℕ) (s : Bytes) → unescape 0 (escape_byte c ++ s) ≡ c ∷ unescape 0 s
unfolding unescape escape_byte codes has_prefix
unescape-byte c s = ground arith

-- A reader of XML entities gets every value back as it was configured.
pub unescape-escape_attr : (s : Bytes) → unescape 0 (escape_attr s) ≡ s
unfolding escape_attr unescape
unescape-escape_attr [] = refl
unescape-escape_attr (c ∷ s) =
    unescape-byte c (escape_attr s) ∙ ap (λ r. c ∷ r) (unescape-escape_attr s)
