-- ===== src/Queue/Shutdown.antt =====
-- pkg/queue/queue.go: what `Stop` guarantees.
use cee_exporter.Common.{
  ℕ, ◌+◌, ◌<◌, ◌≡◌, refl, ap, ◌∙◌, Bool, true, false, some, List, [], ◌∷◌, arith, length, total,
  count, every, add64, All,
}
use cee_exporter.Metrics.{Store}
use cee_exporter.Queue.Conservation.{held_by, handed, run-IsBalanced}
use cee_exporter.Queue.Valid.{IsDrained, WorkerOk, in_call, run-IsValid}
use cee_exporter.Queue.{
  Config, Worker, idle, filling, ready, writing, finished, Queue, Action, start, stop_wait,
  draining, grace, reported, is_finished, all_finished, undrained, run,
}

module _ {E : Type 0} where
  all_finished-held :
      (p : E → Bool) (ws : List (Worker E))
      → every is_finished ws ≡ true
      → total (λ w. count p (held_by w)) ws ≡ 0
  all_finished-held p [] h = refl
  all_finished-held p (finished ∷ ws) h = omega (arith, all_finished-held p ws h)
  all_finished-held p (idle ∷ ws) h = cc
  all_finished-held p (filling b ∷ ws) h = cc
  all_finished-held p (ready b more ∷ ws) h = cc
  all_finished-held p (writing b more ∷ ws) h = cc

  all_finished-drained :
      (max : ℕ) (D : Type 0) (ws : List (Worker E))
      → every is_finished ws ≡ true
      → 0 < length ws
      → All (WorkerOk max D) ws
      → D
  all_finished-drained max D [] h n k = absurd (omega arith)
  all_finished-drained max D (finished ∷ ws) h n k = k.0
  all_finished-drained max D (idle ∷ ws) h n k = cc
  all_finished-drained max D (filling b ∷ ws) h n k = cc
  all_finished-drained max D (ready b more ∷ ws) h n k = cc
  all_finished-drained max D (writing b more ∷ ws) h n k = cc

  stop_wait-done :
      (q q' : Queue E)
      → stop_wait false draining q ≡ some q'
      → (all_finished q ≡ true)
        × (q'.ch ≡ q.ch)
        × (q'.workers ≡ q.workers)
        × (q'.calls ≡ q.calls)
        × (q'.accepted ≡ q.accepted)
        × (q'.metrics ≡ q.metrics)
        × (q'.writer_closed ≡ true)
  unfolding stop_wait
  stop_wait-done q q' h = ground arith

  -- When `Stop` sees the workers finish before the drain timeout, every accepted event has been in
  -- a completed `WriteBatch`, as often as it was accepted, nothing is left in the channel, `Close`
  -- has been called on the writer, and no drop is added to the metrics.
  pub clean_stop :
      (c : Config) (m : Store) (as' : List (Action E)) (q q' : Queue E)
      → run as' (start c m) ≡ some q
      → stop_wait false draining q ≡ some q'
      → ((p : E → Bool) → count p q'.accepted ≡ handed p q')
        × (q'.ch ≡ [])
        × (q'.writer_closed ≡ true)
        × (q'.metrics.events_dropped_total ≡ q.metrics.events_dropped_total)
  clean_stop c m as' q q' r s =
      let v = run-IsValid c m as' q r in
      let (f, c1, w1, k1, a1, m1, x1) = stop_wait-done q q' s in
      let d =
        all_finished-drained q.max_batch (IsDrained q) q.workers f v.workers_pos v.workers_ok in
      (
        λ p.
            rw (a1, k1)
              (omega (
                arith,
                run-IsBalanced c m as' q r p,
                all_finished-held p q.workers f,
                ap (count p) d.1,
              )),
        c1 ∙ d.1,
        x1,
        ap (λ (m : Store). m.events_dropped_total) m1,
      )

  -- The events of batches that a worker has taken from the channel and not yet begun to write.
  abbrev pub unbegun : Worker E → ℕ
  unbegun (filling b) = length b
  unbegun (ready b more) = length b
  unbegun _ = 0

  abbrev anything : E → Bool
  anything e = true

  count-anything : (xs : List E) → count anything xs ≡ length xs
  count-anything [] = refl
  count-anything (x ∷ xs) = omega (arith, count-anything xs)

  held_parts :
      (ws : List (Worker E))
      → total (λ w. count anything (held_by w)) ws ≡ total unbegun ws + total in_call ws
  held_parts [] = omega arith
  held_parts (idle ∷ ws) = omega (arith, held_parts ws)
  held_parts (filling b ∷ ws) = omega (arith, held_parts ws, count-anything b)
  held_parts (ready b more ∷ ws) = omega (arith, held_parts ws, count-anything b)
  held_parts (writing b more ∷ ws) = omega (arith, held_parts ws, count-anything b)
  held_parts (finished ∷ ws) = omega (arith, held_parts ws)

  -- The events in the completed writer calls.
  abbrev pub handed_total : Queue E → ℕ
  handed_total q = total (λ (c : List E × Bool). length c.0) q.calls

  handed-anything :
      (cs : List (List E × Bool))
      → total (λ (c : List E × Bool). count anything c.0) cs
        ≡ total (λ (c : List E × Bool). length c.0) cs
  handed-anything [] = refl
  handed-anything ((b, ok) ∷ cs) = omega (arith, handed-anything cs, count-anything b)

  -- At every moment, what the drain-timeout report counts (the channel and `inFlight`) falls short
  -- of the accepted events that no completed writer call was given by exactly the events in
  -- batches that a worker has gathered and not yet begun to write.
  pub undrained_lem :
      (c : Config) (m : Store) (as' : List (Action E)) (q : Queue E)
      → run as' (start c m) ≡ some q
      → length q.accepted ≡ handed_total q + undrained q + total unbegun q.workers
  undrained_lem c m as' q r = omega (
    arith,
    run-IsBalanced c m as' q r anything,
    held_parts q.workers,
    count-anything q.accepted,
    count-anything q.ch,
    handed-anything q.calls,
    (run-IsValid c m as' q r).in_flight_exact,
  )

  -- The two ways out of the grace wait add exactly the report's count to `EventsDroppedTotal`,
  -- before `Close` is called.
  pub grace_report :
      (timer : Bool) (q q' : Queue E)
      → stop_wait timer grace q ≡ some q'
      → (q'.metrics.events_dropped_total ≡ add64 q.metrics.events_dropped_total (undrained q))
        × (q'.writer_closed ≡ q.writer_closed)
        × (q'.phase ≡ reported)
  unfolding stop_wait
  grace_report timer q q' h = ground arith
