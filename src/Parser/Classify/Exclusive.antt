-- ===== src/Parser/Classify/Exclusive.antt =====
-- pkg/parser/classify.go: a payload has at most one root element, so the order of the tests in
-- `classifyDecoded` does not matter.
use mathlib.Core.Bool.{false≢true}
use cee_exporter.Common.{
  ℕ, ◌≡◌, refl, sym, ap, ◌∙◌, Bool, true, false, ◌||◌, not, Option, none, some, [], ◌∷◌, ◌++◌, ◌==◌,
  Bytes, strip_prefix, every, arith, has_prefix-strip,
}
use cee_exporter.Parser.Classify.{root_of, name_ends, root_is}

-- A byte that does not end an element name.
abbrev pub is_name_byte : ℕ → Bool
is_name_byte c = not (c == b'>' || c == b'/' || c == b' ' || c == 0x09 || c == 0x0D || c == 0x0A)

-- A name that ends where another name goes on does not end.
name_ends-name : (c : ℕ) (s : Bytes) → is_name_byte c ≡ true → name_ends (c ∷ s) ≡ false
unfolding name_ends
name_ends-name c s h = ground arith

-- Two names that follow the `<` and end are one.
ends-same :
    (n m r q : Bytes)
    → every is_name_byte n ≡ true
    → every is_name_byte m ≡ true
    → n ++ r ≡ m ++ q
    → name_ends r ≡ true
    → name_ends q ≡ true
    → n ≡ m
ends-same [] [] r q hn hm h er eq = refl
ends-same [] (c ∷ m) r q hn hm h er eq =
    absurd (
      false≢true (sym (name_ends-name c (m ++ q) (ground (arith, hm))) ∙ sym (ap name_ends h) ∙ er))
ends-same (c ∷ n) [] r q hn hm h er eq =
    absurd (false≢true (sym (name_ends-name c (n ++ r) (ground (arith, hn))) ∙ ap name_ends h ∙ eq))
ends-same (c ∷ n) (d ∷ m) r q hn hm h er eq = ground (arith, ends-same n m r q)

-- What a passed test says.
passed :
    (o : Option Bytes)
    → (elim o [ none ↦ false | some rest ↦ name_ends rest ]) ≡ true
    → (r : Bytes) × (o ≡ some r) × (name_ends r ≡ true)
passed none h = absurd (false≢true h)
passed (some r) h = (r, refl, h)

root_is-split :
    (d n : Bytes)
    → root_is d n ≡ true
    → (r : Bytes) × (root_of d ≡ b'<' ∷ n ++ r) × (name_ends r ≡ true)
unfolding root_is
root_is-split d n h =
    let (r, e, x) = passed (strip_prefix (root_of d) (b'<' ∷ n)) h in
    (r, (has_prefix-strip (root_of d) (b'<' ∷ n) r e).1, x)

-- At most one element name passes `rootIs` on a payload.
pub root_is_unique :
    (d n m : Bytes)
    → every is_name_byte n ≡ true
    → every is_name_byte m ≡ true
    → root_is d n ≡ true
    → root_is d m ≡ true
    → n ≡ m
root_is_unique d n m hn hm h k =
    let (r, e, x) = root_is-split d n h in
    let (q, f, y) = root_is-split d m k in ends-same n m r q hn hm (ground (arith, e, f)) x y
