-- ===== src/Serving/Requests.antt =====
-- The requests in flight in a process: their slots, and where their events are.
mod Handled
use cee_exporter.Common.{
  ℕ, ◌+◌, ◌≤◌, ◌≡◌, refl, sym, ap, ◌∙◌, Bool, true, false, Option, none, some, List, [], ◌∷◌, arith,
  if◌then◌else◌, Bytes, get_elem?, total, count, count-append, total-set, ltb,
}
use cee_exporter.Metrics.{Store}
use cee_exporter.Queue.Conservation.{total-snoc}
use cee_exporter.Queue.Induction.{at_worker-After}
use cee_exporter.Queue.Induction as QueueInduction
use cee_exporter.Queue.{
  Config, Worker, idle, filling, ready, writing, finished, Queue, Action, enqueues, receives, fires,
  begins, ends, stops, waits, Phase, running, draining, grace, stopped, start, enqueue,
  receive_from, fire, write_begin, write_end, stop, stop_wait,
}
use cee_exporter.Queue
use cee_exporter.Mapper.{WindowsEvent}
use cee_exporter.Server.{LimitsConfig, Request, limits_with_defaults, natural}
use cee_exporter.Server.Dispatch.{Platform}
use cee_exporter.Server.Intake.{takes_slot}
use cee_exporter.Serving.Induction.{After, After-if, Rules, Rules-run}
use cee_exporter.Serving.{
  Handling, parked, working, answered, Stage, Move, Process, acquire, offer_next, finish_request,
  shutdown, close_queue, end_run, fail_listener, move_queue, signal, arrive, begin, events, entered,
  is_internal, run,
}
use cee_exporter.Serving.Kept.{Kept, step-Kept}
use cee_exporter.Serving.Requests.Handled.{
  IsSound, acquire-IsSound, offer_next-IsSound, finish_request-IsSound, remaining, slots_of,
}
pub use cee_exporter.Serving.Requests.Handled.{remaining, slots_of}

module _ (t : WindowsEvent → Bool) (limit : ℕ) where
  abbrev Sound : Process → Type 0
  Sound = IsSound t limit

  abbrev weight : Handling → ℕ
  weight w = count t (remaining w)

  -- The same requests, events and slots.
  IsSound-same :
      (s s' : Process)
      → s'.handlings ≡ s.handlings
      → s'.arrived ≡ s.arrived
      → s'.slots ≡ s.slots
      → s'.limit ≡ s.limit
      → Kept s.queue s'.queue
      → Sound s
      → Sound s'
  IsSound-same s s' w a n l k h = record {
    accounted = omega (
      arith,
      h.accounted,
      ap (count t) a,
      ap (total weight) w,
      ap (count t) k.accepted_kept,
      ap (count t) k.refused_kept,
    );
    held = omega (arith, n, h.held, ap (total slots_of) w);
    within = omega (arith, n, h.within);
    limited = l ∙ h.limited;
  }

  move_queue-IsSound :
      (a : Action WindowsEvent) (s : Process) → Sound s → After Sound (move_queue a s)
  unfolding move_queue
  move_queue-IsSound a s h = next (is_internal a) (Queue.step a s.queue) (step-Kept a s.queue)
    where
      next :
          (b : Bool) (o : Option (Queue WindowsEvent))
          → (b ≡ true → QueueInduction.After (Kept s.queue) o)
          → After Sound
              (if b then elim o [ none ↦ none | some q ↦ some (record s { queue = q }) ] else none)
      next true none k = tt
      next true (some q) k = IsSound-same s (record s { queue = q }) refl refl refl refl (k refl) h
      next false o k = tt

  stop-Kept :
      (q : Queue WindowsEvent) → (stop q).accepted ≡ q.accepted × (stop q).refused ≡ q.refused
  unfolding stop
  stop-Kept q = ground arith

  signal-IsSound : (x : Stage) (s : Process) → Sound s → After Sound (signal x s)
  unfolding signal
  signal-IsSound x s h = ground arith

  shutdown-IsSound : (b : Bool) (x : Stage) (s : Process) → Sound s → After Sound (shutdown b x s)
  unfolding shutdown
  shutdown-IsSound b x s h = ground arith

  close_queue-IsSound : (x : Stage) (s : Process) → Sound s → After Sound (close_queue x s)
  unfolding close_queue
  close_queue-IsSound x s h = ground (arith, stop-Kept s.queue)

  end_run-IsSound : (x : Stage) (ph : Phase) (s : Process) → Sound s → After Sound (end_run x ph s)
  unfolding end_run
  end_run-IsSound x ph s h = ground arith

  fail_listener-IsSound : (x : Stage) (s : Process) → Sound s → After Sound (fail_listener x s)
  unfolding fail_listener
  fail_listener-IsSound x s h = ground arith

  module _ (p : Platform) (limits : LimitsConfig) (hostname : Bytes) where
    arrive-IsSound :
        (r : Request) (s : Process) → Sound s → After Sound (arrive p limits hostname r s)
    unfolding arrive
    arrive-IsSound r s h = After-if Sound s.reachable _ (λ e. record {
      accounted = omega (
        arith,
        h.accounted,
        total-snoc weight s.handlings (entered p limits hostname r),
        count-append t s.arrived (events p limits hostname r),
        entered_weight (takes_slot p r) (events p limits hostname r),
      );
      held = omega (
        arith,
        h.held,
        total-snoc slots_of s.handlings (entered p limits hostname r),
        entered_slots (takes_slot p r) (events p limits hostname r),
      );
      within = h.within;
      limited = h.limited;
    })
      where
        entered_weight :
            (b : Bool) (es : List WindowsEvent)
            → weight (if b then parked es else working false es) ≡ count t es
        entered_weight true es = refl
        entered_weight false es = refl

        entered_slots :
            (b : Bool) (es : List WindowsEvent)
            → slots_of (if b then parked es else working false es) ≡ 0
        entered_slots true es = refl
        entered_slots false es = refl

    IsSound-Rules : Rules p limits hostname Sound
    IsSound-Rules = record {
      at_arrive = arrive-IsSound;
      at_acquire = acquire-IsSound t limit;
      at_offer = offer_next-IsSound t limit;
      at_return = finish_request-IsSound t limit;
      at_signal = λ t s e h. signal-IsSound t s h;
      at_shutdown = λ b t s e h. shutdown-IsSound b t s h;
      at_close = λ t s e h. close_queue-IsSound t s h;
      at_queue = move_queue-IsSound;
      at_end = λ t ph s e h. end_run-IsSound t ph s h;
      at_fail = λ t s e h. fail_listener-IsSound t s h;
    }

    begin-IsSound :
        (c : Config) (m : Store)
        → limit ≡ natural (limits_with_defaults limits).max_concurrent_requests
        → Sound (begin p limits hostname c m)
    unfolding begin start
    begin-IsSound c m e = record {
      accounted = refl;
      held = refl;
      within = omega arith;
      limited = sym e;
    }

module _ (p : Platform) (limits : LimitsConfig) (hostname : Bytes) (c : Config) (m : Store)
    (ms : List Move) (s : Process)
    (e : run p limits hostname ms (begin p limits hostname c m) ≡ some s) where
  abbrev max_slots : ℕ
  max_slots = natural (limits_with_defaults limits).max_concurrent_requests

  pub reached : (t : WindowsEvent → Bool) → IsSound t max_slots s
  reached t =
      Rules-run p limits hostname (IsSound t max_slots)
        (IsSound-Rules t max_slots p limits hostname) ms _ s e
        (begin-IsSound t max_slots p limits hostname c m refl)

  -- However the requests, the queue and the shutdown interleave, every event that a request
  -- brought is one that its goroutine has still to enqueue, or was accepted by the queue, or was
  -- refused, as often as it was brought: for every test `t` on events. The slots taken are those
  -- that the requests in flight hold, one each, and never more than the configured number.
  pub run-Accounts :
      ((t : WindowsEvent → Bool)
        → count t s.arrived
          ≡ total (λ w. count t (remaining w)) s.handlings
            + count t s.queue.accepted
            + count t s.queue.refused)
      × (s.slots ≡ total slots_of s.handlings)
      × (s.slots ≤ natural (limits_with_defaults limits).max_concurrent_requests)
  run-Accounts =
      (λ t. (reached t).accounted, (reached (λ x. true)).held, (reached (λ x. true)).within)
