-- ===== src/Serving/Stopping.antt =====
-- The shutdown at the end of `run`: the HTTP server first, then the queue.
use cee_exporter.Common.{
  ◌+◌, ◌≡◌, refl, ap, ◌∙◌, Bool, true, false, some, List, [], ◌∷◌, arith, Bytes, total, count,
  every,
}
use cee_exporter.Metrics.{Store}
use cee_exporter.Queue.Conservation.{handed}
use cee_exporter.Queue.Shutdown.{clean_stop}
use cee_exporter.Queue.{
  Config, Queue, Action, waits, Phase, draining, stopped, start, enqueue, stop, stop_wait,
}
use cee_exporter.Queue
use cee_exporter.Mapper.{WindowsEvent}
use cee_exporter.Server.{LimitsConfig}
use cee_exporter.Server.Dispatch.{Platform}
use cee_exporter.Serving.Order.{run-IsOrderly}
use cee_exporter.Serving.Requests.{remaining, run-Accounts}
use cee_exporter.Serving.Flow.{serving-IsRun}
use cee_exporter.Serving.{
  Handling, parked, working, answered, Move, queues, Process, move_queue, begin, is_answered, step,
  run, move,
}

module _ (p : Platform) (limits : LimitsConfig) (hostname : Bytes) where
  -- `q.Stop` sees the workers finish before the drain timeout.
  drained-Kept :
      (s s' : Process)
      → s.queue.phase ≡ draining
      → step p limits hostname (queues (waits false)) s ≡ some s'
      → (stop_wait false draining s.queue ≡ some s'.queue)
        × (s'.arrived ≡ s.arrived)
        × (s'.late ≡ s.late)
        × (s'.queue.refused ≡ s.queue.refused)
        × (s'.queue.accepted ≡ s.queue.accepted)
  unfolding step move move_queue Queue.step stop_wait
  drained-Kept s s' d e = ground arith

all_answered-remaining :
    (t : WindowsEvent → Bool) (ws : List Handling)
    → every is_answered ws ≡ true
    → total (λ w. count t (remaining w)) ws ≡ 0
all_answered-remaining t [] h = refl
all_answered-remaining t (answered ∷ ws) h = omega (arith, all_answered-remaining t ws h)
all_answered-remaining t (parked es ∷ ws) h = absurd (ground arith)
all_answered-remaining t (working b es ∷ ws) h = absurd (ground arith)

-- After a shutdown in which httpServer.Shutdown returns without an error and `q.Stop` sees the
-- workers finish before the drain timeout, every event of every request that arrived was in a
-- completed `WriteBatch` or was refused, as often as the requests brought it; none of them was
-- refused because the queue was closed; the channel is empty, and `Close` has been called on the
-- writer.
pub graceful_exit :
    (p : Platform) (limits : LimitsConfig) (hostname : Bytes) (c : Config) (m : Store)
    (ms : List Move) (s s' : Process)
    → run p limits hostname ms (begin p limits hostname c m) ≡ some s
    → s.reachable ≡ false
    → s.queue.phase ≡ draining
    → step p limits hostname (queues (waits false)) s ≡ some s'
    → ((t : WindowsEvent → Bool)
        → count t s'.arrived ≡ handed t s'.queue + count t s'.queue.refused)
      × (s'.late ≡ [])
      × (s'.queue.ch ≡ [])
      × (s'.queue.writer_closed ≡ true)
graceful_exit p limits hostname c m ms s s' e r d f =
    let o = run-IsOrderly p limits hostname c m ms s e in
    let (w, a, l, x, y) = drained-Kept p limits hostname s s' d f in
    let (as', q) = serving-IsRun c m p limits hostname ms s e in
    let k = clean_stop c m as' s.queue s'.queue q w in
    let n = run-Accounts p limits hostname c m ms s e in
    (
      λ t. omega (
        arith,
        k.0 t,
        n.0 t,
        all_answered-remaining t s.handlings (o.calm r),
        ap (count t) a,
        ap (count t) x,
        ap (count t) y,
      ),
      l ∙ o.early r,
      k.1,
      k.2,
    )
