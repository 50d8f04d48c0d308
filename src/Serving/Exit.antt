-- ===== src/Serving/Exit.antt =====
-- The end of `run` in cmd/cee-exporter/main.go: what it waits for after the signal.
mod Measure
use mathlib.Core.Bool.{true≢false}
use cee_exporter.Common.{
  ℕ, ◌≤◌, ◌<◌, ◌≡◌, ◌≢◌, refl, sym, ◌∙◌, ◌⊎◌, inl, inr, Bool, true, false, Option, none, some, List,
  [], ◌∷◌, arith, if◌then◌else◌, if-both, Bytes, get_elem?,
}
use cee_exporter.Metrics.{Store}
use cee_exporter.Queue.Induction.{at_worker-After}
use cee_exporter.Queue.Induction as QueueInduction
use cee_exporter.Queue.Valid.{run-IsValid}
use cee_exporter.Queue.{
  Config, Worker, Queue, Action, enqueues, receives, fires, begins, ends, stops, waits, drops,
  Phase, running, draining, grace, reported, closing, stopped, start, enqueue, receive_from, fire,
  write_begin, write_end, stop, stop_wait, finish_stop, all_finished,
}
use cee_exporter.Queue
use cee_exporter.Mapper.{WindowsEvent}
use cee_exporter.Server.{LimitsConfig}
use cee_exporter.Server.Dispatch.{Platform}
use cee_exporter.Serving.Kept.{Kept, step-Kept}
use cee_exporter.Serving.Flow.{serving-IsRun}
use cee_exporter.Serving.Induction.{After, After-if, Rules, Rules-run, step-Rules}
use cee_exporter.Serving.{
  Handling, parked, working, answered, Stage, serving, shutting, shut, stopping, ended, exited,
  Move, queues, shuts, closes, finishes, Process, acquire, offer_next, finish_request, shutdown,
  close_queue, end_run, fail_listener, move_queue, signal, arrive, begin, is_internal, step, run,
  move,
}
use cee_exporter.Serving.Exit.Measure.{
  phase_left-most, finish_stop-left, Within, Within-Rules, is_leaving, moves_left, own_move,
}
pub use cee_exporter.Serving.Exit.Measure.{is_leaving, moves_left, own_move}

-- Once `run` is in `q.Stop`, the queue is closed.
abbrev StopCloses : Process → Type 0
StopCloses s = s.stage ≡ stopping → s.queue.closed ≡ true

enqueue-closed : (e : WindowsEvent) (q : Queue WindowsEvent) → (enqueue e q).0.closed ≡ q.closed
unfolding enqueue
enqueue-closed e q = ground arith

stop-closed : (q : Queue WindowsEvent) → (stop q).closed ≡ true
unfolding stop
stop-closed q = ground arith

offer_next-StopCloses :
    (i : ℕ) (s : Process) (w : Handling) → StopCloses s → After StopCloses (offer_next i s w)
unfolding offer_next
offer_next-StopCloses i s (working b (e ∷ es)) h = λ k. rw (enqueue-closed e s.queue) (h k)
offer_next-StopCloses i s (working b []) h = tt
offer_next-StopCloses i s (parked es) h = tt
offer_next-StopCloses i s answered h = tt

move_queue-StopCloses :
    (a : Action WindowsEvent) (s : Process) → StopCloses s → After StopCloses (move_queue a s)
unfolding move_queue
move_queue-StopCloses a s h = next (is_internal a) (Queue.step a s.queue) (step-Kept a s.queue)
  where
    next :
        (b : Bool) (o : Option (Queue WindowsEvent))
        → (b ≡ true → QueueInduction.After (Kept s.queue) o)
        → After StopCloses
            (if b then elim o [ none ↦ none | some q ↦ some (record s { queue = q }) ] else none)
    next true none k = tt
    next true (some q) k = λ e. (k refl).closed_kept ∙ h e
    next false o k = tt

StopCloses-Rules :
    (p : Platform) (limits : LimitsConfig) (hostname : Bytes) → Rules p limits hostname StopCloses
unfolding arrive acquire finish_request signal shutdown close_queue end_run fail_listener
StopCloses-Rules p limits hostname = record {
  at_arrive = λ r s h. After-if StopCloses s.reachable _ (λ e. h);
  at_acquire = λ i s w g h. ground arith;
  at_offer = λ i s w g h. offer_next-StopCloses i s w h;
  at_return = λ i s w g h. ground arith;
  at_signal = λ t s e h. ground arith;
  at_shutdown = λ b t s e h. ground arith;
  at_close = λ t s e h. ground (arith, stop-closed s.queue);
  at_queue = move_queue-StopCloses;
  at_end = λ t ph s e h. ground arith;
  at_fail = λ t s e h. ground arith;
}

begin-StopCloses :
    (p : Platform) (limits : LimitsConfig) (hostname : Bytes) (c : Config) (m : Store)
    → StopCloses (begin p limits hostname c m)
unfolding begin
begin-StopCloses p limits hostname c m = λ e. cc

module _ (p : Platform) (limits : LimitsConfig) (hostname : Bytes) where
  -- The move `m` is open, leads nearer to the end, and to it or to where `run` is leaving still.
  abbrev pub Leaves : Move → Process → Type 0
  Leaves m s =
      (s' : Process) × (step p limits hostname m s ≡ some s')
      × (moves_left s' < moves_left s)
      × ((is_leaving s'.stage ≡ true) ⊎ (s'.stage ≡ ended))

  -- A process with its place spelled out.
  abbrev placed : Stage → Phase → Process → Process
  placed st ph s = record s { stage = st; queue = record s.queue { phase = ph } }

  placed-Leaves :
      (st : Stage) (ph : Phase) (s : Process)
      → is_leaving st ≡ true
      → (st ≡ stopping → ph ≢ running)
      → Leaves (own_move st ph) (placed st ph s)
  unfolding step move shutdown close_queue move_queue end_run Queue.step stop_wait
  placed-Leaves shutting ph s l n = (_, refl, omega arith, inl refl)
  placed-Leaves shut ph s l n =
      let q : Queue WindowsEvent = record s.queue { phase = ph } in
      (_, refl, omega (arith, phase_left-most (stop q).phase), inl refl)
  placed-Leaves stopping draining s l n = (_, refl, omega arith, inl refl)
  placed-Leaves stopping grace s l n = (_, refl, omega arith, inl refl)
  placed-Leaves stopping reported s l n =
      let q : Queue WindowsEvent = record s.queue { phase = reported } in
      (_, refl, finish_stop-left q, inl refl)
  placed-Leaves stopping closing s l n = (_, refl, omega arith, inl refl)
  placed-Leaves stopping stopped s l n = (_, refl, omega arith, inr refl)
  placed-Leaves stopping running s l n = absurd (n refl refl)
  placed-Leaves serving ph s l n = absurd (ground arith)
  placed-Leaves ended ph s l n = absurd (ground arith)
  placed-Leaves exited ph s l n = absurd (ground arith)

  -- In `q.Stop` the queue is not running.
  stop-running :
      (c : Config) (m : Store) (ms : List Move) (s : Process)
      → run p limits hostname ms (begin p limits hostname c m) ≡ some s
      → s.stage ≡ stopping
      → s.queue.phase ≢ running
  stop-running c m ms s e t r =
      let (as', q) = serving-IsRun c m p limits hostname ms s e in
      let v = run-IsValid c m as' s.queue q in
      let k =
        Rules-run p limits hostname StopCloses (StopCloses-Rules p limits hostname) ms _ s e
          (begin-StopCloses p limits hostname c m) t in
      true≢false (sym k ∙ v.phase_closed r)

  -- No request and no `WriteBatch` holds up the end of `run`. From every state in which it has been
  -- told to return and has not, its own next move is open: the context of httpServer.Shutdown
  -- expires, a timer of `q.Stop` does, the writer's `Close` returns, or it just goes on. That move
  -- leads at least one nearer to the end of the at most seven moves to it, and no move of any
  -- goroutine leads away. So `run` returns, unless it is in a `Close` that does not.
  pub exit_progress :
      (c : Config) (m : Store) (ms : List Move) (s : Process)
      → run p limits hostname ms (begin p limits hostname c m) ≡ some s
      → is_leaving s.stage ≡ true
      → Leaves (own_move s.stage s.queue.phase) s
        × ((mv : Move) (t : Process)
            → step p limits hostname mv s ≡ some t
            → moves_left t ≤ moves_left s)
        × (moves_left s ≤ 7)
  exit_progress c m ms s e l = (
    placed-Leaves s.stage s.queue.phase s l (stop-running c m ms s e),
    λ mv t f. rw f at (
        step-Rules p limits hostname (Within (moves_left s))
          (Within-Rules (moves_left s) p limits hostname) mv s (omega arith)),
    ground (arith, l, phase_left-most s.queue.phase),
  )
