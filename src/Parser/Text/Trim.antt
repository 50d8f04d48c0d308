-- ===== src/Parser/Text/Trim.antt =====
-- bytes.TrimSpace: the white space of unicode.IsSpace, in UTF-8, off both ends.
use cee_exporter.Common.{ℕ, zero, suc, Bool, ◌&&◌, ◌||◌, [], ◌∷◌, leb, ◌==◌, if◌then◌else◌, Bytes}
use mathlib.Core.List.{reverse}

abbrev pub is_ascii_space : ℕ → Bool
is_ascii_space c = c == 0x20 || (leb 0x09 c && leb c 0x0D)

-- How many bytes the white space character at the head takes, or 0: ASCII, U+0085, U+00A0,
-- U+1680, U+2000 to U+200A, U+2028, U+2029, U+202F, U+205F, U+3000.
unfoldable pub space_at : Bytes → ℕ
space_at [] = 0
space_at (a ∷ []) = if is_ascii_space a then 1 else 0
space_at (a ∷ b ∷ []) =
    if is_ascii_space a then 1 else if a == 0xC2 && (b == 0x85 || b == 0xA0) then 2 else 0
space_at (a ∷ b ∷ c ∷ rest) =
    if is_ascii_space a
    then 1
    else if a == 0xC2 && (b == 0x85 || b == 0xA0)
    then 2
    else if a == 0xE1 && b == 0x9A && c == 0x80
    then 3
    else if a == 0xE2
        && (b == 0x80 && ((leb 0x80 c && leb c 0x8A) || c == 0xA8 || c == 0xA9 || c == 0xAF)
            || b == 0x81 && c == 0x9F)
    then 3
    else if a == 0xE3 && b == 0x80 && c == 0x80
    then 3
    else 0

-- The same at the end of a string, read backwards.
unfoldable pub space_back : Bytes → ℕ
space_back [] = 0
space_back (a ∷ []) = if is_ascii_space a then 1 else 0
space_back (b ∷ a ∷ []) =
    if is_ascii_space b then 1 else if a == 0xC2 && (b == 0x85 || b == 0xA0) then 2 else 0
space_back (c ∷ b ∷ a ∷ rest) =
    if is_ascii_space c
    then 1
    else if b == 0xC2 && (c == 0x85 || c == 0xA0)
    then 2
    else if space_at (a ∷ b ∷ c ∷ []) == 3
    then 3
    else 0

-- Off the head, while `width` says that a character is there; the first argument counts the bytes
-- of the last one still to pass.
unfoldable pub trim_by : (Bytes → ℕ) → ℕ → Bytes → Bytes
trim_by width k [] = []
trim_by width (suc k) (c ∷ s) = trim_by width k s
trim_by width zero (c ∷ s) = elim (width (c ∷ s)) [ zero ↦ c ∷ s | suc n ↦ trim_by width n s ]

unfoldable pub trim_space : Bytes → Bytes
trim_space s = reverse (trim_by space_back 0 (reverse (trim_by space_at 0 s)))
