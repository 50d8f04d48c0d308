-- ===== src/Tests/Queues.antt =====
-- pkg/queue at a queue of two places with one worker and batches of two.
use cee_exporter.Common.{
  ℕ, ◌+◌, ◌≤◌, ◌≡◌, refl, Bool, true, false, Option, none, some, List, [], ◌∷◌, ◌++◌, ◌==◌, pos,
  count, length, total,
}
use cee_exporter.Metrics.{zero_store}
use cee_exporter.Queue.{
  Config, with_defaults, Worker, Queue, Action, enqueues, receives, begins, ends, stops, waits,
  draining, grace, start, enqueue, receive_from, write_begin, write_end, stop, stop_wait, step, run,
  all_finished, undrained,
}
use cee_exporter.Queue.Conservation.{run-IsBalanced, held, handed, held_by}
use cee_exporter.Queue.Ledger.{ledger, Replays, answered}
use cee_exporter.Queue.Refinement.{run-Replays}
use cee_exporter.Queue.Valid.{run-IsValid, IsValid}
use cee_exporter.Queue.Counters.{run-IsCounted, IsCounted}
use cee_exporter.Queue.Order.{run-IsFifo, delivered}
use cee_exporter.Queue.Drain.{drain_bound, work_left}
use cee_exporter.Queue.Shutdown.{clean_stop, undrained_lem, handed_total, unbegun}
use cee_exporter.Queue.Closing.{run-ClosesLast}

abbrev config : Config
config = record {
  capacity = pos 2;
  workers = pos 1;
  drain_timeout = pos 0;
  max_batch = pos 2;
  batch_timeout = pos 0;
}

abbrev the : Option (Queue ℕ) → Queue ℕ
the none = start config zero_store
the (some q) = q

-- Three events, of which the third is refused, and a batch in the writer's hands.
abbrev busy : List (Action ℕ)
busy = enqueues 7 ∷ enqueues 8 ∷ enqueues 9 ∷ receives 0 ∷ receives 0 ∷ begins 0 ∷ []

-- The same to a clean end of the workers.
abbrev drained : List (Action ℕ)
drained =
    enqueues 7
    ∷ enqueues 8
    ∷ receives 0
    ∷ receives 0
    ∷ begins 0
    ∷ stops
    ∷ ends 0 true 5
    ∷ receives 0
    ∷ []

-- An event left in the channel when the drain timer fires.
abbrev late : List (Action ℕ)
late = enqueues 7 ∷ stops ∷ waits true ∷ []

-- A stop with an event still in the channel.
abbrev closing : List (Action ℕ)
closing = enqueues 7 ∷ stops ∷ []

abbrev after : List (Action ℕ) → Queue ℕ
after as' = the (run as' (start config zero_store))

runs :
    (run busy (start config zero_store) ≡ some (after busy))
    × (run drained (start config zero_store) ≡ some (after drained))
    × (run late (start config zero_store) ≡ some (after late))
unfolding run step enqueue receive_from write_begin write_end stop stop_wait start with_defaults
runs = (refl, refl, refl)

run-IsBalanced_example :
    count (λ e. e == 7) (after busy).accepted
    ≡ count (λ e. e == 7) (after busy).ch
      + held (λ e. e == 7) (after busy)
      + handed (λ e. e == 7) (after busy)
run-IsBalanced_example = run-IsBalanced config zero_store busy (after busy) runs.0 (λ e. e == 7)

run-IsValid_example : IsValid (after busy)
run-IsValid_example = run-IsValid config zero_store busy (after busy) runs.0

run-IsCounted_example : IsCounted zero_store (after busy)
run-IsCounted_example = run-IsCounted config zero_store busy (after busy) runs.0

run-IsFifo_example :
    (w : Worker ℕ) × ((after busy).workers ≡ w ∷ [])
    × ((after busy).accepted ≡ delivered (after busy).calls ++ (held_by w ++ (after busy).ch))
run-IsFifo_example = run-IsFifo config zero_store busy (after busy) refl runs.0

undrained_lem_example :
    length (after busy).accepted
    ≡ handed_total (after busy) + undrained (after busy) + total unbegun (after busy).workers
undrained_lem_example = undrained_lem config zero_store busy (after busy) runs.0

stops_cleanly :
    stop_wait false draining (after drained) ≡ some (the (stop_wait false draining (after drained)))
unfolding run step enqueue receive_from write_begin write_end stop stop_wait start with_defaults
stops_cleanly = refl

clean_stop_example :
    ((p : ℕ → Bool)
      → count p (the (stop_wait false draining (after drained))).accepted
        ≡ handed p (the (stop_wait false draining (after drained))))
    × ((the (stop_wait false draining (after drained))).ch ≡ [])
    × ((the (stop_wait false draining (after drained))).writer_closed ≡ true)
    × ((the (stop_wait false draining (after drained))).metrics.events_dropped_total
        ≡ (after drained).metrics.events_dropped_total)
clean_stop_example =
    clean_stop config zero_store drained (after drained)
      (the (stop_wait false draining (after drained))) runs.1 stops_cleanly

gives_up : stop_wait true grace (after late) ≡ some (the (stop_wait true grace (after late)))
unfolding run step enqueue stop stop_wait start with_defaults
gives_up = refl

closed :
    run (drained ++ waits false ∷ []) (start config zero_store)
    ≡ some (after (drained ++ waits false ∷ []))
unfolding run step enqueue receive_from write_begin write_end stop stop_wait start with_defaults
closed = refl

is_closed : (after (drained ++ waits false ∷ [])).writer_closed ≡ true
unfolding run step enqueue receive_from write_begin write_end stop stop_wait start with_defaults
is_closed = refl

run-ClosesLast_example : all_finished (after (drained ++ waits false ∷ [])) ≡ true
run-ClosesLast_example =
    run-ClosesLast config zero_store (drained ++ waits false ∷ [])
      (after (drained ++ waits false ∷ [])) closed is_closed

abbrev one_move : List (Action ℕ)
one_move = receives 0 ∷ []

moves : run one_move (after closing) ≡ some (the (run one_move (after closing)))
unfolding run step enqueue receive_from stop start with_defaults
moves = refl

drain_bound_example :
    length one_move + work_left (the (run one_move (after closing))) ≤ work_left (after closing)
drain_bound_example =
    drain_bound one_move (after closing) (the (run one_move (after closing))) refl moves

is_open : ((after closing).closed ≡ true) × (all_finished (after closing) ≡ false)
unfolding run step enqueue stop start with_defaults
is_open = (refl, refl)

run-Replays_example :
    Replays
      (answered drained (start config zero_store))
      (ledger (start config zero_store))
      (ledger (after drained))
run-Replays_example = run-Replays drained (start config zero_store) (after drained) runs.1
