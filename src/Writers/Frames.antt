-- ===== src/Writers/Frames.antt =====
-- The framings of pkg/evtx/writer_syslog.go and writer_gelf.go on a stream.
use mathlib.Core.List.{append_assoc, append-nil}
use cee_exporter.Common.{
  ◌≡◌, refl, sym, ap, ◌∙◌, Bool, true, false, not, List, [], ◌∷◌, ◌++◌, ◌==◌, Bytes, arith, every,
  Bool-cases, inl, inr, All,
}
use cee_exporter.Writers.{gelf_frames}

-- A reader of null-terminated frames: the payloads before each zero byte, with the part read so
-- far. A part without its zero is dropped.
unfoldable pub null_frames : Bytes → Bytes → List Bytes
null_frames part [] = []
null_frames part (c ∷ s) = elim (c == 0) [
  | true ↦ part ∷ null_frames [] s
  | false ↦ null_frames (part ++ c ∷ []) s
]

-- No zero byte.
abbrev pub has_no_null : Bytes → Bool
has_no_null p = every (λ c. not (c == 0)) p

null_frames-part :
    (part p rest : Bytes)
    → has_no_null p ≡ true
    → null_frames part (p ++ 0 ∷ rest) ≡ (part ++ p) ∷ null_frames [] rest
unfolding null_frames
null_frames-part part [] rest h = ap (λ x. x ∷ null_frames [] rest) (sym (append-nil part))
null_frames-part part (c ∷ p) rest h = elim (Bool-cases (c == 0)) [
  | inl e ↦ ground (arith, e, h)
  | inr e ↦
      rw (e, null_frames)
        (null_frames-part (part ++ c ∷ []) p rest (ground (arith, h))
          ∙ ap (λ x. x ∷ null_frames [] rest) (append_assoc part (c ∷ []) p))
]

gelf_frames-onto :
    (frame : Bytes) (ps : List Bytes) → gelf_frames frame ps ≡ frame ++ gelf_frames [] ps
unfolding gelf_frames
gelf_frames-onto frame [] = sym (append-nil frame)
gelf_frames-onto frame (p ∷ ps) =
    gelf_frames-onto ((frame ++ p) ++ 0 ∷ []) ps
    ∙ ap (λ x. x ++ gelf_frames [] ps) (append_assoc frame p (0 ∷ []))
    ∙ append_assoc frame (p ++ 0 ∷ []) (gelf_frames [] ps)
    ∙ ap (λ x. frame ++ x) (sym (gelf_frames-onto (p ++ 0 ∷ []) ps))

-- A GELF batch on a stream is read back, payload by payload, by a reader that splits at zero bytes,
-- where no payload holds a zero byte.
pub null_frames-gelf :
    (ps : List Bytes) → All (λ p. has_no_null p ≡ true) ps → null_frames [] (gelf_frames [] ps) ≡ ps
unfolding gelf_frames null_frames
null_frames-gelf [] h = refl
null_frames-gelf (p ∷ ps) (h, hs) =
    ap (null_frames [])
      (gelf_frames-onto (p ++ 0 ∷ []) ps ∙ append_assoc p (0 ∷ []) (gelf_frames [] ps))
    ∙ null_frames-part [] p (gelf_frames [] ps) h
    ∙ ap (λ x. p ∷ x) (null_frames-gelf ps hs)
