-- ===== src/Writers/Multi.antt =====
-- MultiWriter and writeBatchSerially of pkg/evtx: every target and every event is attempted.
use mathlib.Core.List.{append_assoc, append-nil}
use cee_exporter.Common.{
  ℕ, ◌≡◌, sym, ap, ◌∙◌, Bool, true, ◌&&◌, none, List, [], ◌∷◌, ◌++◌, map, every,
}
use cee_exporter.Mapper.{WindowsEvent}
use cee_exporter.Writers.{Writer, attempt_all, write_batch_serially, multi_write_batch}

-- What a target was asked to write: one event, or a batch.
pub data Call : Type 0 where
  event : ℕ → WindowsEvent → Call
  batch : ℕ → List WindowsEvent → Call

-- Target `i`, which writes its calls into a common log, and fails where `works` says so.
abbrev pub target : (ℕ → WindowsEvent → Bool) → (ℕ → Bool) → ℕ → Writer (List Call)
target works takes i = record {
  write_event = λ e calls. (calls ++ event i e ∷ [], works i e);
  write_batch = λ es calls. (calls ++ batch i es ∷ [], takes i);
  close = λ calls. (calls, true);
  rotate = none;
}

-- Every target of a MultiWriter is handed the whole batch, in the order of the configuration and
-- once, whichever of them fail; and the call succeeds exactly if all of them do.
pub multi_write_batch-all :
    (works : ℕ → WindowsEvent → Bool) (takes : ℕ → Bool) (ids : List ℕ) (events : List WindowsEvent)
    (calls : List Call)
    → multi_write_batch (map (target works takes) ids) events calls
      ≡ (calls ++ map (λ i. batch i events) ids, every takes ids)
unfolding multi_write_batch attempt_all
multi_write_batch-all works takes [] events calls = ap (λ c. (c, true)) (sym (append-nil calls))
multi_write_batch-all works takes (i ∷ ids) events calls =
    let h = multi_write_batch-all works takes ids events (calls ++ batch i events ∷ []) in
    ap (λ r. (r.0, takes i && r.1)) h
    ∙ ap (λ c. (c, takes i && every takes ids))
        (append_assoc calls (batch i events ∷ []) (map (λ j. batch j events) ids))

-- A writer without a batch of its own is handed every event of the batch, in order and once,
-- whichever of them fail; and the batch succeeds exactly if all of them do.
pub write_batch_serially-all :
    (works : ℕ → WindowsEvent → Bool) (takes : ℕ → Bool) (i : ℕ) (events : List WindowsEvent)
    (calls : List Call)
    → write_batch_serially (target works takes i) events calls
      ≡ (calls ++ map (event i) events, every (works i) events)
unfolding write_batch_serially attempt_all
write_batch_serially-all works takes i [] calls = ap (λ c. (c, true)) (sym (append-nil calls))
write_batch_serially-all works takes i (e ∷ es) calls =
    let h = write_batch_serially-all works takes i es (calls ++ event i e ∷ []) in
    ap (λ r. (r.0, works i e && r.1)) h
    ∙ ap (λ c. (c, works i e && every (works i) es))
        (append_assoc calls (event i e ∷ []) (map (event i) es))
