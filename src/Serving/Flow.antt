-- ===== src/Serving/Flow.antt =====
-- The queue of a process moves as pkg/queue/queue.go lets it.
use cee_exporter.Common.{
  ℕ, ◌≡◌, refl, Bool, true, false, Option, none, some, List, [], ◌∷◌, ◌++◌, arith, if◌then◌else◌,
  Bytes, ltb, every,
}
use cee_exporter.Metrics.{Store}
use cee_exporter.Queue.{
  Config, Queue, Action, enqueues, stops, Phase, stopped, start, enqueue, stop,
}
use cee_exporter.Queue
use cee_exporter.Mapper.{WindowsEvent}
use cee_exporter.Server.{LimitsConfig, Request}
use cee_exporter.Server.Dispatch.{Platform}
use cee_exporter.Serving.Induction.{After, After-if, Rules, Rules-run}
use cee_exporter.Serving.{
  Handling, parked, working, answered, Stage, serving, shutting, shut, stopping, ended, exited,
  fail_listener, Move, Process, acquire, offer_next, finish_request, shutdown, close_queue, end_run,
  move_queue, signal, arrive, begin, is_internal, is_answered, run,
}

module _ (c : Config) (m : Store) where
  -- A schedule of the queue leads to it.
  abbrev pub IsRun : Queue WindowsEvent → Type 0
  IsRun q = (as' : List (Action WindowsEvent)) × (Queue.run as' (start c m) ≡ some q)

  run-snoc :
      (as' : List (Action WindowsEvent)) (a : Action WindowsEvent) (q0 q q' : Queue WindowsEvent)
      → Queue.run as' q0 ≡ some q
      → Queue.step a q ≡ some q'
      → Queue.run (as' ++ a ∷ []) q0 ≡ some q'
  unfolding Queue.run
  run-snoc [] a q0 q q' e f = ground (arith, e, f)
  run-snoc (b ∷ as') a q0 q q' e f = next (Queue.step b q0) e (λ r e. run-snoc as' a r q q' e f)
    where
      next :
          (o : Option (Queue WindowsEvent))
          → (elim o [ none ↦ none | some r ↦ Queue.run as' r ]) ≡ some q
          → ((r : Queue WindowsEvent)
              → Queue.run as' r ≡ some q
              → Queue.run (as' ++ a ∷ []) r ≡ some q')
          → (elim o [ none ↦ none | some r ↦ Queue.run (as' ++ a ∷ []) r ]) ≡ some q'
      next none e k = ground (arith, e)
      next (some r) e k = k r e

  IsRun-step :
      (a : Action WindowsEvent) (q q' : Queue WindowsEvent)
      → IsRun q
      → Queue.step a q ≡ some q'
      → IsRun q'
  IsRun-step a q q' (as', e) f = (as' ++ a ∷ [], run-snoc as' a _ q q' e f)

  abbrev Runs : Process → Type 0
  Runs s = IsRun s.queue

  offer_next-IsRun : (i : ℕ) (s : Process) (w : Handling) → Runs s → After Runs (offer_next i s w)
  unfolding offer_next Queue.step
  offer_next-IsRun i s (working b (e ∷ es)) h =
      IsRun-step (enqueues e) s.queue (enqueue e s.queue).0 h refl
  offer_next-IsRun i s (working b []) h = tt
  offer_next-IsRun i s (parked es) h = tt
  offer_next-IsRun i s answered h = tt

  finish_request-IsRun :
      (i : ℕ) (s : Process) (w : Handling) → Runs s → After Runs (finish_request i s w)
  unfolding finish_request
  finish_request-IsRun i s (working b []) h = h
  finish_request-IsRun i s (working b (e ∷ es)) h = tt
  finish_request-IsRun i s (parked es) h = tt
  finish_request-IsRun i s answered h = tt

  acquire-IsRun : (i : ℕ) (s : Process) (w : Handling) → Runs s → After Runs (acquire i s w)
  unfolding acquire
  acquire-IsRun i s (parked es) h = After-if Runs (ltb s.slots s.limit) _ (λ b. h)
  acquire-IsRun i s (working b es) h = tt
  acquire-IsRun i s answered h = tt

  shutdown-IsRun : (b : Bool) (t : Stage) (s : Process) → Runs s → After Runs (shutdown b t s)
  unfolding shutdown
  shutdown-IsRun true shutting s h = h
  shutdown-IsRun false shutting s h = After-if Runs (every is_answered s.handlings) _ (λ b. h)
  shutdown-IsRun b serving s h = ground arith
  shutdown-IsRun b shut s h = ground arith
  shutdown-IsRun b stopping s h = ground arith
  shutdown-IsRun b ended s h = ground arith
  shutdown-IsRun b exited s h = ground arith

  signal-IsRun : (t : Stage) (s : Process) → Runs s → After Runs (signal t s)
  unfolding signal
  signal-IsRun serving s h = h
  signal-IsRun _ s h = tt

  fail_listener-IsRun : (t : Stage) (s : Process) → Runs s → After Runs (fail_listener t s)
  unfolding fail_listener
  fail_listener-IsRun serving s h = h
  fail_listener-IsRun _ s h = tt

  close_queue-IsRun : (t : Stage) (s : Process) → Runs s → After Runs (close_queue t s)
  unfolding close_queue Queue.step
  close_queue-IsRun shut s h = IsRun-step stops s.queue (stop s.queue) h refl
  close_queue-IsRun _ s h = tt

  end_run-IsRun : (t : Stage) (ph : Phase) (s : Process) → Runs s → After Runs (end_run t ph s)
  unfolding end_run
  end_run-IsRun stopping stopped s h = h
  end_run-IsRun _ _ s h = tt

  move_queue-IsRun : (a : Action WindowsEvent) (s : Process) → Runs s → After Runs (move_queue a s)
  unfolding move_queue
  move_queue-IsRun a s h = next (is_internal a) (Queue.step a s.queue) (IsRun-step a s.queue)
    where
      next :
          (b : Bool) (o : Option (Queue WindowsEvent))
          → ((q : Queue WindowsEvent) → IsRun s.queue → o ≡ some q → IsRun q)
          → After Runs
              (if b then elim o [ none ↦ none | some q ↦ some (record s { queue = q }) ] else none)
      next true none k = tt
      next true (some q) k = k q h refl
      next false o k = tt

  module _ (p : Platform) (limits : LimitsConfig) (hostname : Bytes) where
    arrive-IsRun : (r : Request) (s : Process) → Runs s → After Runs (arrive p limits hostname r s)
    unfolding arrive
    arrive-IsRun r s h = After-if Runs s.reachable _ (λ e. h)

    IsRun-Rules : Rules p limits hostname Runs
    IsRun-Rules = record {
      at_arrive = arrive-IsRun;
      at_acquire = λ i s w g h. acquire-IsRun i s w h;
      at_offer = λ i s w g h. offer_next-IsRun i s w h;
      at_return = λ i s w g h. finish_request-IsRun i s w h;
      at_signal = λ t s e h. signal-IsRun t s h;
      at_shutdown = λ b t s e h. shutdown-IsRun b t s h;
      at_close = λ t s e h. close_queue-IsRun t s h;
      at_queue = move_queue-IsRun;
      at_end = λ t ph s e h. end_run-IsRun t ph s h;
      at_fail = λ t s e h. fail_listener-IsRun t s h;
    }

    begin-IsRun : Runs (begin p limits hostname c m)
    unfolding begin Queue.run
    begin-IsRun = ([], refl)

    -- Whatever the process does, its queue has got where it is by a schedule of the queue: so what
    -- holds of the queue after every schedule holds in every process.
    pub serving-IsRun :
        (ms : List Move) (s : Process)
        → run p limits hostname ms (begin p limits hostname c m) ≡ some s
        → IsRun s.queue
    serving-IsRun ms s e = Rules-run p limits hostname Runs IsRun-Rules ms _ s e begin-IsRun
