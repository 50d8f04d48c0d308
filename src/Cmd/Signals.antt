-- ===== src/Cmd/Signals.antt =====
-- cmd/cee-exporter/sighup_notwindows.go: a rotation for each SIGHUP.
use mathlib.Core.Option
use mathlib.Core.List.{append_assoc, append-nil}
use cee_exporter.Common.{
  ℕ, zero, suc, ◌≡◌, sym, ap, ◌∙◌, Bool, true, ◌&&◌, Option, none, some, List, [], ◌∷◌, ◌++◌, map,
  every, if◌then◌else◌,
}
use cee_exporter.Writers.{
  Writer, multi_write_event, multi_write_batch, multi_close, multi_rotate, rotate_one, attempt_all,
}

-- sighup_rotate_failed and sighup_rotate_complete.
pub data RotationLog : Type 0 where
  rotate_failed rotate_complete : RotationLog

module _ {S : Type 0} where
  -- NewMultiWriter
  abbrev pub new_multi_writer : List (Writer S) → Writer S
  new_multi_writer ws = record {
    write_event = multi_write_event ws;
    write_batch = multi_write_batch ws;
    close = multi_close ws;
    rotate = some (multi_rotate ws);
  }

  -- What one SIGHUP does, by the method Rotate of the writer.
  unfoldable pub rotate_logged : Option (S → S × Bool) → S → S × List RotationLog
  rotate_logged none s = (s, [])
  rotate_logged (some rotate) s =
      let (s1, ok) = rotate s in (s1, (if ok then rotate_complete else rotate_failed) ∷ [])

  -- The loop of installSIGHUP over `n` signals.
  unfoldable pub sighups : ℕ → Writer S → S → S × List RotationLog
  sighups zero w s = (s, [])
  sighups (suc n) w s =
      let (s1, l) = rotate_logged w.rotate s in let (s2, ls) = sighups n w s1 in (s2, l ++ ls)

-- Writer `i` of a MultiWriter, which logs its rotations; `none` has no method Rotate.
abbrev pub rotating : (ℕ → Option Bool) → ℕ → Writer (List ℕ)
rotating rotates i = record {
  write_event = λ e log. (log, true);
  write_batch = λ es log. (log, true);
  close = λ log. (log, true);
  rotate = Option.map (λ ok log. (log ++ i ∷ [], ok)) (rotates i);
}

-- The writers that have it, and whether it works where it is there.
abbrev pub rotators : (ℕ → Option Bool) → List ℕ → List ℕ
rotators rotates [] = []
rotators rotates (i ∷ ids) = elim (rotates i) [
  | none ↦ rotators rotates ids
  | some ok ↦ i ∷ rotators rotates ids
]

abbrev pub rotates_well : (ℕ → Option Bool) → ℕ → Bool
rotates_well rotates i = elim (rotates i) [ none ↦ true | some ok ↦ ok ]

abbrev pub repeat {ℓ} : {A : Type ℓ} → ℕ → List A → List A
repeat zero xs = []
repeat (suc n) xs = xs ++ repeat n xs

multi_rotate-all :
    (rotates : ℕ → Option Bool) (ids log : List ℕ)
    → multi_rotate (map (rotating rotates) ids) log
      ≡ (log ++ rotators rotates ids, every (rotates_well rotates) ids)
unfolding multi_rotate attempt_all rotate_one
multi_rotate-all rotates [] log = ap (λ c. (c, true)) (sym (append-nil log))
multi_rotate-all rotates (i ∷ ids) log = next (rotates i) (multi_rotate-all rotates ids)
  where
    next :
        (o : Option Bool)
        → ((log : List ℕ)
            → multi_rotate (map (rotating rotates) ids) log
              ≡ (log ++ rotators rotates ids, every (rotates_well rotates) ids))
        → let (s1, ok) = rotate_one (Option.map (λ ok log. (log ++ i ∷ [], ok)) o) log in
          let (s2, later) = multi_rotate (map (rotating rotates) ids) s1 in
          ◌≡◌ {A = List ℕ × Bool}
            (s2, ok && later)
            (
              log ++ elim o [ none ↦ rotators rotates ids | some ok ↦ i ∷ rotators rotates ids ],
              elim o [ none ↦ true | some ok ↦ ok ] && every (rotates_well rotates) ids,
            )
    next none h = h log
    next (some ok) h =
        ap (λ r. (r.0, ok && r.1)) (h (log ++ i ∷ []))
        ∙ ap (λ c. (c, ok && every (rotates_well rotates) ids))
            (append_assoc log (i ∷ []) (rotators rotates ids))

-- On every SIGHUP each writer of a MultiWriter that can rotate does so once, in the order of the
-- configuration, whichever of them fail, and no other does; and what is logged is a completed
-- rotation exactly if all of them succeed.
pub sighups-multi :
    (rotates : ℕ → Option Bool) (ids : List ℕ) (n : ℕ) (log : List ℕ)
    → sighups n (new_multi_writer (map (rotating rotates) ids)) log ≡ (
      log ++ repeat n (rotators rotates ids),
      repeat n ((if every (rotates_well rotates) ids then rotate_complete else rotate_failed) ∷ []),
    )
unfolding sighups rotate_logged
sighups-multi rotates ids zero log = ap (λ c. (c, [])) (sym (append-nil log))
sighups-multi rotates ids (suc n) log =
    rw (multi_rotate-all rotates ids log, sighups-multi rotates ids n (log ++ rotators rotates ids))
      (ap
        (λ c. (
          c,
          repeat (suc n)
              ((if every (rotates_well rotates) ids then rotate_complete else rotate_failed) ∷ []),
        ))
        (append_assoc log (rotators rotates ids) (repeat n (rotators rotates ids))))
