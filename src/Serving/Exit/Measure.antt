-- ===== src/Serving/Exit/Measure.antt =====
-- The moves that `run` of cmd/cee-exporter/main.go has still to make.
use cee_exporter.Common.{
  ℕ, ◌≤◌, ◌<◌, ◌≡◌, refl, Bool, true, false, Option, none, some, [], ◌∷◌, arith, if◌then◌else◌,
  if-both, Bytes, get_elem?,
}
use cee_exporter.Queue.Induction.{at_worker-After}
use cee_exporter.Queue.Induction as QueueInduction
use cee_exporter.Queue.{
  Config, Worker, Queue, Action, enqueues, receives, fires, begins, ends, stops, waits, drops,
  Phase, running, draining, grace, reported, closing, stopped, start, enqueue, receive_from, fire,
  write_begin, write_end, stop, stop_wait, finish_stop, all_finished,
}
use cee_exporter.Queue
use cee_exporter.Mapper.{WindowsEvent}
use cee_exporter.Server.{LimitsConfig}
use cee_exporter.Server.Dispatch.{Platform}
use cee_exporter.Serving.Induction.{After, After-if, Rules}
use cee_exporter.Serving.{
  Handling, parked, working, answered, Stage, serving, shutting, shut, stopping, ended, exited,
  Move, queues, shuts, closes, finishes, Process, acquire, offer_next, finish_request, shutdown,
  close_queue, end_run, fail_listener, move_queue, signal, arrive, is_internal,
}

-- `run` has been told to return, and has not yet.
abbrev pub is_leaving : Stage → Bool
is_leaving shutting = true
is_leaving shut = true
is_leaving stopping = true
is_leaving _ = false

abbrev pub phase_left : Phase → ℕ
phase_left grace = 4
phase_left reported = 3
phase_left closing = 2
phase_left stopped = 1
phase_left _ = 5

abbrev pub stage_left : Stage → Phase → ℕ
stage_left serving ph = 8
stage_left shutting ph = 7
stage_left shut ph = 6
stage_left stopping ph = phase_left ph
stage_left ended ph = 0
stage_left exited ph = 0

-- The moves that `run` has still to make.
abbrev pub moves_left : Process → ℕ
moves_left s = stage_left s.stage s.queue.phase

-- The move of `run` that waits for no request and for no `WriteBatch`: a context or a timer
-- expires, `q.Stop` goes on by itself, or the writer's `Close` returns.
abbrev pub own_move : Stage → Phase → Move
own_move shutting ph = shuts true
own_move shut ph = closes
own_move stopping draining = queues (waits true)
own_move stopping grace = queues (waits true)
own_move stopping reported = queues (waits false)
own_move stopping closing = queues (waits false)
own_move _ ph = finishes

pub phase_left-most : (ph : Phase) → phase_left ph ≤ 5
phase_left-most ph = ground arith

-- No goroutine of the queue takes `Stop` back.
abbrev Nearer : Queue WindowsEvent → Queue WindowsEvent → Type 0
Nearer q q' = phase_left q'.phase ≤ phase_left q.phase

stage_left_mono :
    (st : Stage) (a b : Phase) → phase_left a ≤ phase_left b → stage_left st a ≤ stage_left st b
stage_left_mono st a b h = ground arith

enqueue-phase : (e : WindowsEvent) (q : Queue WindowsEvent) → (enqueue e q).0.phase ≡ q.phase
unfolding enqueue
enqueue-phase e q = ground arith

pub finish_stop-left : (q : Queue WindowsEvent) → phase_left (finish_stop q).phase < 3
finish_stop-left q =
    if-both (λ (q : Queue WindowsEvent). phase_left q.phase < 3) (all_finished q) _ _ (omega arith)
      (omega arith)

stop_wait-Nearer :
    (timer : Bool) (ph : Phase) (q : Queue WindowsEvent)
    → q.phase ≡ ph
    → QueueInduction.After (Nearer q) (stop_wait timer ph q)
unfolding stop_wait
stop_wait-Nearer timer ph q e = ground (arith, finish_stop-left q)

step-Nearer :
    (a : Action WindowsEvent) (q : Queue WindowsEvent)
    → is_internal a ≡ true
    → QueueInduction.After (Nearer q) (Queue.step a q)
unfolding Queue.step receive_from fire write_begin write_end
step-Nearer (enqueues e) q h = absurd (ground arith)
step-Nearer stops q h = absurd (ground arith)
step-Nearer drops q h = absurd (ground arith)
step-Nearer (receives i) q h =
    at_worker-After (Nearer q) (λ w q. receive_from i w q.ch q) q (get_elem? q.workers i)
      (λ w g. ground arith)
step-Nearer (fires i) q h =
    at_worker-After (Nearer q) (fire i) q (get_elem? q.workers i) (λ w g. ground arith)
step-Nearer (begins i) q h =
    at_worker-After (Nearer q) (write_begin i) q (get_elem? q.workers i) (λ w g. ground arith)
step-Nearer (ends i ok now) q h =
    at_worker-After (Nearer q) (write_end i ok now) q (get_elem? q.workers i) (λ w g. ground arith)
step-Nearer (waits timer) q h = stop_wait-Nearer timer q.phase q refl

module _ (n : ℕ) where
  abbrev pub Within : Process → Type 0
  Within s = moves_left s ≤ n

  offer_next-Within :
      (i : ℕ) (s : Process) (w : Handling) → Within s → After Within (offer_next i s w)
  unfolding offer_next
  offer_next-Within i s (working b (e ∷ es)) h = rw (enqueue-phase e s.queue) h
  offer_next-Within i s (working b []) h = tt
  offer_next-Within i s (parked es) h = tt
  offer_next-Within i s answered h = tt

  shutdown-Within :
      (b : Bool) (t : Stage) (s : Process) → s.stage ≡ t → Within s → After Within (shutdown b t s)
  unfolding shutdown
  shutdown-Within b t s e h = ground (arith, e, h)

  close_queue-Within :
      (t : Stage) (s : Process) → s.stage ≡ t → Within s → After Within (close_queue t s)
  unfolding close_queue
  close_queue-Within shut s e h = ground (arith, e, h, phase_left-most (stop s.queue).phase)
  close_queue-Within _ s e h = tt

  move_queue-Within :
      (a : Action WindowsEvent) (s : Process) → Within s → After Within (move_queue a s)
  unfolding move_queue
  move_queue-Within a s h = next (is_internal a) (Queue.step a s.queue) (step-Nearer a s.queue)
    where
      next :
          (b : Bool) (o : Option (Queue WindowsEvent))
          → (b ≡ true → QueueInduction.After (Nearer s.queue) o)
          → After Within
              (if b then elim o [ none ↦ none | some q ↦ some (record s { queue = q }) ] else none)
      next true none k = tt
      next true (some q) k =
          omega (arith, h, stage_left_mono s.stage q.phase s.queue.phase (k refl))
      next false o k = tt

  pub Within-Rules :
      (p : Platform) (limits : LimitsConfig) (hostname : Bytes) → Rules p limits hostname Within
  unfolding arrive acquire finish_request signal end_run fail_listener
  Within-Rules p limits hostname = record {
    at_arrive = λ r s h. After-if Within s.reachable _ (λ e. h);
    at_acquire = λ i s w g h. ground arith;
    at_offer = λ i s w g h. offer_next-Within i s w h;
    at_return = λ i s w g h. ground arith;
    at_signal = λ t s e h. ground (arith, e, h);
    at_shutdown = λ b t s e h. shutdown-Within b t s e h;
    at_close = λ t s e h. close_queue-Within t s e h;
    at_queue = move_queue-Within;
    at_end = λ t ph s e h. ground (arith, e, h);
    at_fail = λ t s e h. ground (arith, e, h);
  }
