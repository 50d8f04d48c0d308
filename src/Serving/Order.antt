-- ===== src/Serving/Order.antt =====
-- The order of the shutdown: the queue is closed after the HTTP server.
mod Handled
use cee_exporter.Common.{
  ℕ, zero, suc, ◌≡◌, refl, sym, ap, ◌∙◌, inl, inr, Bool, true, false, Option, none, some, List, [],
  ◌∷◌, arith, if◌then◌else◌, Bytes, get_elem?, every, Bool-cases, ltb,
}
use cee_exporter.Metrics.{Store}
use cee_exporter.Queue.Induction as QueueInduction
use cee_exporter.Queue.{
  Config, Queue, Action, waits, Phase, draining, stopped, start, enqueue, stop, stop_wait,
}
use cee_exporter.Queue
use cee_exporter.Mapper.{WindowsEvent}
use cee_exporter.Server.{LimitsConfig, Request}
use cee_exporter.Server.Dispatch.{Platform}
use cee_exporter.Serving.Induction.{After, After-if, Rules, Rules-run}
use cee_exporter.Serving.Kept.{Kept, step-Kept}
use cee_exporter.Serving.{
  Handling, parked, working, answered, Stage, serving, shutting, shut, stopping, ended, exited,
  fail_listener, Move, Process, acquire, offer_next, finish_request, shutdown, close_queue, end_run,
  move_queue, signal, arrive, begin, is_internal, is_answered, run,
}
use cee_exporter.Serving.Order.Handled.{
  is_stopping, IsOrderly, acquire-IsOrderly, offer_next-IsOrderly, finish_request-IsOrderly,
}

signal-IsOrderly :
    (t : Stage) (s : Process) → s.stage ≡ t → IsOrderly s → After IsOrderly (signal t s)
unfolding signal
signal-IsOrderly serving s e h = record {
  calm = h.calm;
  opened = λ c. absurd (ground (arith, h.opened c, e));
  early = h.early;
  on_time = h.on_time;
}
signal-IsOrderly _ s e h = tt

fail_listener-IsOrderly :
    (t : Stage) (s : Process) → s.stage ≡ t → IsOrderly s → After IsOrderly (fail_listener t s)
unfolding fail_listener
fail_listener-IsOrderly serving s e h = record {
  calm = h.calm;
  opened = λ c. absurd (ground (arith, h.opened c, e));
  early = h.early;
  on_time = h.on_time;
}
fail_listener-IsOrderly _ s e h = tt

-- While `run` is in Shutdown, the queue is open.
pub still_open : (s : Process) → IsOrderly s → s.stage ≡ shutting → s.queue.closed ≡ false
still_open s h e = elim (Bool-cases s.queue.closed) [
  | inl c ↦ absurd (ground (arith, h.opened c, e))
  | inr c ↦ c
]

shutdown-IsOrderly :
    (b : Bool) (t : Stage) (s : Process)
    → s.stage ≡ t
    → IsOrderly s
    → After IsOrderly (shutdown b t s)
unfolding shutdown
shutdown-IsOrderly true shutting s e h = record {
  calm = h.calm;
  opened = λ c. absurd (ground (arith, h.opened c, e));
  early = h.early;
  on_time = h.on_time;
}
shutdown-IsOrderly false shutting s e h = After-if IsOrderly (every is_answered s.handlings) _ (λ a.
    record {
      calm = λ r. a;
      opened = λ c. absurd (ground (arith, h.opened c, e));
      early = λ r. h.on_time (still_open s h e);
      on_time = h.on_time;
    })
shutdown-IsOrderly b serving s e h = ground arith
shutdown-IsOrderly b shut s e h = ground arith
shutdown-IsOrderly b stopping s e h = ground arith
shutdown-IsOrderly b ended s e h = ground arith
shutdown-IsOrderly b exited s e h = ground arith

stop-closed : (q : Queue WindowsEvent) → (stop q).closed ≡ true
unfolding stop
stop-closed q = ground arith

close_queue-IsOrderly :
    (t : Stage) (s : Process) → s.stage ≡ t → IsOrderly s → After IsOrderly (close_queue t s)
unfolding close_queue
close_queue-IsOrderly shut s e h = record {
  calm = h.calm;
  opened = λ c. refl;
  early = h.early;
  on_time = λ c. absurd (ground (arith, c, stop-closed s.queue));
}
close_queue-IsOrderly _ s e h = tt

end_run-IsOrderly :
    (t : Stage) (ph : Phase) (s : Process)
    → s.stage ≡ t
    → IsOrderly s
    → After IsOrderly (end_run t ph s)
unfolding end_run
end_run-IsOrderly stopping stopped s e h = record {
  calm = h.calm;
  opened = λ c. refl;
  early = h.early;
  on_time = h.on_time;
}
end_run-IsOrderly _ _ s e h = tt

move_queue-IsOrderly :
    (a : Action WindowsEvent) (s : Process) → IsOrderly s → After IsOrderly (move_queue a s)
unfolding move_queue
move_queue-IsOrderly a s h = next (is_internal a) (Queue.step a s.queue) (step-Kept a s.queue)
  where
    next :
        (b : Bool) (o : Option (Queue WindowsEvent))
        → (b ≡ true → QueueInduction.After (Kept s.queue) o)
        → After IsOrderly
            (if b then elim o [ none ↦ none | some q ↦ some (record s { queue = q }) ] else none)
    next true none k = tt
    next true (some q) k = record {
      calm = h.calm;
      opened = λ c. h.opened (sym (k refl).closed_kept ∙ c);
      early = h.early;
      on_time = λ c. h.on_time (sym (k refl).closed_kept ∙ c);
    }
    next false o k = tt

module _ (p : Platform) (limits : LimitsConfig) (hostname : Bytes) where
  arrive-IsOrderly :
      (r : Request) (s : Process) → IsOrderly s → After IsOrderly (arrive p limits hostname r s)
  unfolding arrive
  arrive-IsOrderly r s h = After-if IsOrderly s.reachable _ (λ b. record {
    calm = λ e. absurd (ground (arith, e, b));
    opened = h.opened;
    early = h.early;
    on_time = h.on_time;
  })

  IsOrderly-Rules : Rules p limits hostname IsOrderly
  IsOrderly-Rules = record {
    at_arrive = arrive-IsOrderly;
    at_acquire = acquire-IsOrderly;
    at_offer = offer_next-IsOrderly;
    at_return = finish_request-IsOrderly;
    at_signal = signal-IsOrderly;
    at_shutdown = shutdown-IsOrderly;
    at_close = close_queue-IsOrderly;
    at_queue = move_queue-IsOrderly;
    at_end = end_run-IsOrderly;
    at_fail = fail_listener-IsOrderly;
  }

  begin-IsOrderly : (c : Config) (m : Store) → IsOrderly (begin p limits hostname c m)
  unfolding begin start
  begin-IsOrderly c m = record {
    calm = λ e. refl;
    opened = λ e. absurd (ground (arith, e));
    early = λ e. refl;
    on_time = λ e. refl;
  }

  pub run-IsOrderly :
      (c : Config) (m : Store) (ms : List Move) (s : Process)
      → run p limits hostname ms (begin p limits hostname c m) ≡ some s
      → IsOrderly s
  run-IsOrderly c m ms s e =
      Rules-run p limits hostname IsOrderly IsOrderly-Rules ms _ s e (begin-IsOrderly c m)
