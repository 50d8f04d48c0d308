-- ===== src/Queue.antt =====
-- pkg/queue/queue.go: the channel, its workers and the shutdown. The goroutines are modelled by a
-- schedule: an action is the next thing that one goroutine does (a handler's `Enqueue`, a worker's
-- receive, timer, write or return, a phase of `Stop`, a drop by a handler), `step` gives the state
-- after it, and `none` says that the goroutine cannot move so (it is blocked, or is elsewhere).
-- Each action is one atomic step; the counter updates of a `writeBatch` before and after the
-- writer's call are one step each. Times are the schedule's: a timer may fire whenever its
-- goroutine waits on it.
pub mod Induction
pub mod Conservation
pub mod Valid
pub mod Counters
pub mod Order
pub mod Drain
pub mod Shutdown
pub mod Closing
pub mod Ledger
pub mod Refinement
use cee_exporter.Common.{
  ℕ, zero, suc, ◌+◌, ◌%◌, ◌^◌, ◌-◌, ◌≡◌, Bool, true, false, ◌&&◌, Option, none, some, List, [], ◌∷◌,
  ◌++◌, leb, ltb, if◌then◌else◌, length, get_elem?, set, replicate, every, total, add64, ℤ, pos,
  negsuc,
}
use cee_exporter.Metrics.{Store, zero_store, set_queue_depth, record_event_at}

-- Config; the two durations are in nanoseconds, as time.Duration is.
pub record Config : Type 0 where
  pub capacity : ℤ
  pub workers : ℤ
  pub drain_timeout : ℤ
  pub max_batch : ℤ
  pub batch_timeout : ℤ

abbrev positive_or : ℤ → ℕ → ℤ
positive_or (pos zero) d = pos d
positive_or (pos (suc n)) d = pos (suc n)
positive_or (negsuc n) d = pos d

unfoldable pub with_defaults : Config → Config
with_defaults c = record {
  capacity = positive_or c.capacity 100000;
  workers = positive_or c.workers 4;
  drain_timeout = positive_or c.drain_timeout 30000000000;
  max_batch = positive_or c.max_batch 500;
  batch_timeout = positive_or c.batch_timeout 200000000;
}

abbrev pub magnitude : ℤ → ℕ
magnitude (pos n) = n
magnitude (negsuc n) = 0

-- Where a worker goroutine stands. `filling` is inside `nextBatch` with a batch begun, `ready` has
-- `nextBatch` returned (the batch, and `more`), `writing` is inside `WriteBatch`.
pub data Worker {ℓ} (E : Type ℓ) : Type ℓ where
  idle : Worker E
  filling : List E → Worker E
  ready : List E → Bool → Worker E
  writing : List E → Bool → Worker E
  finished : Worker E

-- Where `Stop` stands. In `draining` it waits for the workers or the drain timer, in `grace` for
-- the workers or the grace timer; in `reported` it has counted what is left, in `closing` it is
-- inside the writer's `Close`.
pub data Phase : Type 0 where
  running draining grace reported closing stopped : Phase

pub data Action {ℓ} (E : Type ℓ) : Type ℓ where
  enqueues : E → Action E
  receives : ℕ → Action E
  fires : ℕ → Action E
  begins : ℕ → Action E
  ends : ℕ → Bool → ℕ → Action E
  stops : Action E
  waits : Bool → Action E
  drops : Action E

pub record Queue {ℓ} (E : Type ℓ) : Type ℓ where
  pub ch : List E
  pub capacity : ℕ
  pub max_batch : ℕ
  pub workers : List (Worker E)
  pub in_flight : ℕ
  pub closed : Bool
  pub phase : Phase
  -- `Close` was called on the writer
  pub writer_closed : Bool
  pub metrics : Store
  -- what the callers of `Enqueue` were told, and the completed calls of `WriteBatch` with their
  -- outcome: the environment's view, which the code never reads
  pub accepted : List E
  pub refused : List E
  pub calls : List (List E × Bool)
  -- what the drain-timeout report counted, and the payloads that handlers counted as dropped with
  -- no `Enqueue`: the environment's view too
  pub reported_drops : ℕ
  pub handler_drops : ℕ

module _ {ℓ} {E : Type ℓ} where
  -- New, then Start
  unfoldable pub start : Config → Store → Queue E
  unfolding with_defaults
  start cfg m =
      let c = with_defaults cfg in
      record {
        ch = [];
        capacity = magnitude c.capacity;
        max_batch = magnitude c.max_batch;
        workers = replicate (magnitude c.workers) idle;
        in_flight = 0;
        closed = false;
        phase = running;
        writer_closed = false;
        metrics = m;
        accepted = [];
        refused = [];
        calls = [];
        reported_drops = 0;
        handler_drops = 0;
      }

  abbrev drop_event : E → Queue E → Queue E
  drop_event e q = record q {
    metrics = record q.metrics { events_dropped_total = add64 q.metrics.events_dropped_total 1 };
    refused = q.refused ++ e ∷ [];
  }

  unfoldable pub enqueue : E → Queue E → Queue E × Bool
  enqueue e q =
      if q.closed
      then (drop_event e q, false)
      else if ltb (length q.ch) q.capacity
      then (
        record q {
          ch = q.ch ++ e ∷ [];
          metrics = set_queue_depth (length q.ch + 1) q.metrics;
          accepted = q.accepted ++ e ∷ [];
        },
        true,
      )
      else (drop_event e q, false)

  -- pkg/server/server.go counts a payload that it cannot read or parse in the same metric.
  unfoldable pub drop_payload : Queue E → Queue E
  drop_payload q = record q {
    metrics = record q.metrics { events_dropped_total = add64 q.metrics.events_dropped_total 1 };
    handler_drops = q.handler_drops + 1;
  }

  -- The loop condition of `nextBatch` after an append.
  abbrev pub appended : ℕ → List E → Worker E
  appended max batch = if ltb (length batch) max then filling batch else ready batch true

  -- A receive by worker `i`, which stands at the second argument; the third is the channel. A
  -- receive from an empty channel blocks, or, once it is closed, reports the close.
  unfoldable pub receive_from : ℕ → Worker E → List E → Queue E → Option (Queue E)
  receive_from i idle (e ∷ rest) q =
      some (record q { ch = rest; workers = set q.workers i (appended q.max_batch (e ∷ [])) })
  receive_from i idle [] q =
      if q.closed then some (record q { workers = set q.workers i finished }) else none
  receive_from i (filling b) (e ∷ rest) q =
      some (record q { ch = rest; workers = set q.workers i (appended q.max_batch (b ++ e ∷ [])) })
  receive_from i (filling b) [] q =
      if q.closed then some (record q { workers = set q.workers i (ready b false) }) else none
  receive_from i _ ch q = none

  abbrev pub receive : ℕ → Worker E → Queue E → Option (Queue E)
  receive i w q = receive_from i w q.ch q

  -- The batch timer fires.
  unfoldable pub fire : ℕ → Worker E → Queue E → Option (Queue E)
  fire i (filling b) q = some (record q { workers = set q.workers i (ready b true) })
  fire i _ q = none

  -- `writeBatch` up to the writer's call. A batch is never empty here, so `work` always gets here.
  unfoldable pub write_begin : ℕ → Worker E → Queue E → Option (Queue E)
  write_begin i (ready b more) q = some (record q {
    workers = set q.workers i (writing b more);
    in_flight = q.in_flight + length b;
    metrics = record q.metrics {
      queue_depth = length q.ch;
      writer_batches_total = add64 q.metrics.writer_batches_total 1;
    };
  })
  write_begin i _ q = none

  abbrev next_turn : Bool → Worker E
  next_turn more = if more then idle else finished

  abbrev count_result : List E → Bool → ℕ → Store → Store
  count_result b true now m = record m {
    events_written_total = add64 m.events_written_total (length b);
    last_event_at = now;
  }
  count_result b false now m = record m {
    writer_errors_total = add64 m.writer_errors_total (length b);
    writer_batch_errors_total = add64 m.writer_batch_errors_total 1;
  }

  -- The writer's call returns, without an error iff `ok`, at the time `now`.
  unfoldable pub write_end : ℕ → Bool → ℕ → Worker E → Queue E → Option (Queue E)
  write_end i ok now (writing b more) q = some (record q {
    workers = set q.workers i (next_turn more);
    in_flight = q.in_flight - length b;
    metrics = count_result b ok now q.metrics;
    calls = q.calls ++ (b, ok) ∷ [];
  })
  write_end i ok now _ q = none

  abbrev pub is_finished : Worker E → Bool
  is_finished finished = true
  is_finished _ = false

  -- wg.Wait() returns, and so `done` is closed.
  abbrev pub all_finished : Queue E → Bool
  all_finished q = every is_finished q.workers

  unfoldable pub stop : Queue E → Queue E
  stop q = if q.closed then q else record q { closed = true; phase = draining }

  -- What the drain-timeout report counts.
  abbrev pub undrained : Queue E → ℕ
  undrained q = length q.ch + q.in_flight

  abbrev give_up : Queue E → Queue E
  give_up q = record q {
    metrics = record q.metrics {
      events_dropped_total = add64 q.metrics.events_dropped_total (undrained q);
    };
    phase = reported;
    reported_drops = q.reported_drops + undrained q;
  }

  -- The last select of `Stop`: it calls `Close`, or leaves the writer open and returns.
  abbrev pub finish_stop : Queue E → Queue E
  finish_stop q =
      if all_finished q
      then record q { phase = closing; writer_closed = true }
      else record q { phase = stopped }

  -- `Stop` goes on, because its timer fired (`timer` is true) or without: `done` was closed, the
  -- report is written, or `Close` has returned, with an error or not.
  unfoldable pub stop_wait : Bool → Phase → Queue E → Option (Queue E)
  stop_wait true draining q = some (record q { phase = grace })
  stop_wait true grace q = some (give_up q)
  stop_wait false draining q = if all_finished q then some (finish_stop q) else none
  stop_wait false grace q = if all_finished q then some (give_up q) else none
  stop_wait false reported q = some (finish_stop q)
  stop_wait false closing q = some (record q { phase = stopped })
  stop_wait timer _ q = none

  -- What worker `i` does, if there is one.
  abbrev at_worker : (Worker E → Queue E → Option (Queue E)) → ℕ → Queue E → Option (Queue E)
  at_worker f i q = elim (get_elem? q.workers i) [ none ↦ none | some w ↦ f w q ]

  unfoldable pub step : Action E → Queue E → Option (Queue E)
  step (enqueues e) q = some (enqueue e q).0
  step (receives i) q = at_worker (receive i) i q
  step (fires i) q = at_worker (fire i) i q
  step (begins i) q = at_worker (write_begin i) i q
  step (ends i ok now) q = at_worker (write_end i ok now) i q
  step stops q = some (stop q)
  step (waits timer) q = stop_wait timer q.phase q
  step drops q = some (drop_payload q)

  -- A schedule; `none` if it asks for a move that is not open.
  unfoldable pub run : List (Action E) → Queue E → Option (Queue E)
  run [] q = some q
  run (a ∷ as') q = elim (step a q) [ none ↦ none | some q' ↦ run as' q' ]
