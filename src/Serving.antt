-- ===== src/Serving.antt =====
-- cmd/cee-exporter/main.go from `q.Start` to the end of `run`, with the requests in flight: main's
-- goroutine, one goroutine for each request, and those of the queue. A schedule is a list of moves;
-- `none` says that a move is not open. http.Server is the net/http documentation's: `Shutdown` lets
-- requests in flight go on, and returns without an error only when no connection is left on which
-- one could arrive. Requests that it gives up on when its context expires go on too. What the
-- handlers count in the metrics is left out, since neither the queue nor main reads it.
mod Induction
mod Kept
pub mod Requests
pub mod Progress
pub mod Flow
mod Order
pub mod Handshake
pub mod Stopping
pub mod Exit
pub mod Written
use cee_exporter.Common.{
  ℕ, ◌+◌, ◌-◌, Bool, true, false, Option, none, some, List, [], ◌∷◌, ◌++◌, ltb, if◌then◌else◌,
  Bytes, get_elem?, set, every,
}
use cee_exporter.Metrics.{Store}
use cee_exporter.Queue.{
  Config, Queue, Action, enqueues, receives, fires, begins, ends, stops, waits, drops, Phase,
  running, draining, grace, stopped, start, enqueue, stop,
}
use cee_exporter.Queue
use cee_exporter.Mapper.{WindowsEvent}
use cee_exporter.Server.{LimitsConfig, Request, limits_with_defaults, natural}
use cee_exporter.Server.Dispatch.{Platform}
use cee_exporter.Server.Intake.{intake, takes_slot}

-- Where the goroutine of a request stands: in acquireSlot, or past it, with whether it holds a slot
-- and the events that it has not enqueued yet, or back from ServeHTTP.
pub data Handling : Type 0 where
  parked : List WindowsEvent → Handling
  working : Bool → List WindowsEvent → Handling
  answered : Handling

-- Where `run` stands: in the select on the signal and the context, in httpServer.Shutdown, before
-- and in q.Stop, and returned; or gone with os.Exit when the listener fails.
pub data Stage : Type 0 where
  serving shutting shut stopping ended exited : Stage

pub data Move : Type 0 where
  arrives : Request → Move
  acquires : ℕ → Move
  offers : ℕ → Move
  returns : ℕ → Move
  signals : Move
  shuts : Bool → Move
  closes : Move
  queues : Action WindowsEvent → Move
  finishes : Move
  fails : Move

pub record Process : Type 0 where
  pub queue : Queue WindowsEvent
  pub limit : ℕ
  pub slots : ℕ
  pub handlings : List Handling
  pub stage : Stage
  -- whether there is a connection on which a request can arrive
  pub reachable : Bool
  -- the events of all requests, and those offered to a closed queue: the environment's view
  pub arrived : List WindowsEvent
  pub late : List WindowsEvent

abbrev pub is_answered : Handling → Bool
is_answered answered = true
is_answered _ = false

-- What a goroutine of the queue does, and not a handler or main.
abbrev pub is_internal : Action WindowsEvent → Bool
is_internal (enqueues e) = false
is_internal stops = false
is_internal drops = false
is_internal _ = true

abbrev pub at_handling : (Handling → Option Process) → ℕ → Process → Option Process
at_handling f i s = elim (get_elem? s.handlings i) [ none ↦ none | some w ↦ f w ]

-- A slot is free.
unfoldable pub acquire : ℕ → Process → Handling → Option Process
acquire i s (parked es) =
    if ltb s.slots s.limit
    then some (record s { handlings = set s.handlings i (working true es); slots = s.slots + 1 })
    else none
acquire i s _ = none

unfoldable pub offer_next : ℕ → Process → Handling → Option Process
offer_next i s (working holds (e ∷ es)) = some (record s {
  queue = (enqueue e s.queue).0;
  handlings = set s.handlings i (working holds es);
  late = if s.queue.closed then s.late ++ e ∷ [] else s.late;
})
offer_next i s _ = none

unfoldable pub finish_request : ℕ → Process → Handling → Option Process
finish_request i s (working holds []) = some (record s {
  handlings = set s.handlings i answered;
  slots = if holds then s.slots - 1 else s.slots;
})
finish_request i s _ = none

-- httpServer.Shutdown returns, with an error if its context has expired.
unfoldable pub shutdown : Bool → Stage → Process → Option Process
shutdown true shutting s = some (record s { stage = shut })
shutdown false shutting s =
    if every is_answered s.handlings
    then some (record s { stage = shut; reachable = false })
    else none
shutdown expired _ s = none

unfoldable pub close_queue : Stage → Process → Option Process
close_queue shut s = some (record s { queue = stop s.queue; stage = stopping })
close_queue _ s = none

unfoldable pub end_run : Stage → Phase → Process → Option Process
end_run stopping stopped s = some (record s { stage = ended })
end_run _ _ s = none

unfoldable pub move_queue : Action WindowsEvent → Process → Option Process
move_queue a s =
    if is_internal a
    then elim (Queue.step a s.queue) [ none ↦ none | some q ↦ some (record s { queue = q }) ]
    else none

unfoldable pub signal : Stage → Process → Option Process
signal serving s = some (record s { stage = shutting })
signal _ s = none

-- `Serve` fails: the goroutine of the listener ends the process. It returns http.ErrServerClosed
-- once Shutdown was called, which is no failure.
unfoldable pub fail_listener : Stage → Process → Option Process
fail_listener serving s = some (record s { stage = exited })
fail_listener _ s = none

abbrev pub is_ended : Stage → Bool
is_ended ended = true
is_ended exited = true
is_ended _ = false

module _ (p : Platform) (limits : LimitsConfig) (hostname : Bytes) where
  -- The queue is started, and the listener is open.
  unfoldable pub begin : Config → Store → Process
  begin c m = record {
    queue = start c m;
    limit = natural (limits_with_defaults limits).max_concurrent_requests;
    slots = 0;
    handlings = [];
    stage = serving;
    reachable = true;
    arrived = [];
    late = [];
  }

  abbrev pub events : Request → List WindowsEvent
  events r = intake p (limits_with_defaults limits) hostname r

  abbrev pub entered : Request → Handling
  entered r = if takes_slot p r then parked (events r) else working false (events r)

  unfoldable pub arrive : Request → Process → Option Process
  arrive r s =
      if s.reachable
      then some
          (record s { handlings = s.handlings ++ entered r ∷ []; arrived = s.arrived ++ events r })
      else none

  unfoldable pub move : Move → Process → Option Process
  move (arrives r) s = arrive r s
  move (acquires i) s = at_handling (acquire i s) i s
  move (offers i) s = at_handling (offer_next i s) i s
  move (returns i) s = at_handling (finish_request i s) i s
  move signals s = signal s.stage s
  move (shuts expired) s = shutdown expired s.stage s
  move closes s = close_queue s.stage s
  move (queues a) s = move_queue a s
  move finishes s = end_run s.stage s.queue.phase s
  move fails s = fail_listener s.stage s

  -- The process is gone when `run` has returned or the listener has failed.
  unfoldable pub step : Move → Process → Option Process
  step m s = if is_ended s.stage then none else move m s

  unfoldable pub run : List Move → Process → Option Process
  run [] s = some s
  run (m ∷ ms) s = elim (step m s) [ none ↦ none | some s' ↦ run ms s' ]
