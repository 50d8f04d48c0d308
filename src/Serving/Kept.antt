-- ===== src/Serving/Kept.antt =====
-- What the goroutines of the queue leave alone.
use cee_exporter.Common.{ℕ, ◌≡◌, Bool, true, List, arith, get_elem?}
use cee_exporter.Queue.Induction.{at_worker-After}
use cee_exporter.Queue.Induction as QueueInduction
use cee_exporter.Queue.{
  Config, Worker, idle, filling, ready, writing, finished, Queue, Action, enqueues, receives, fires,
  begins, ends, stops, waits, drops, Phase, running, draining, grace, stopped, start, enqueue,
  receive_from, fire, write_begin, write_end, stop, stop_wait,
}
use cee_exporter.Queue
use cee_exporter.Mapper.{WindowsEvent}
use cee_exporter.Serving.{is_internal}

pub record Kept (q q' : Queue WindowsEvent) : Type 0 where
  pub accepted_kept : q'.accepted ≡ q.accepted
  pub refused_kept : q'.refused ≡ q.refused
  pub closed_kept : q'.closed ≡ q.closed

receive_from-Kept :
    (i : ℕ) (w : Worker WindowsEvent) (ch : List WindowsEvent) (q : Queue WindowsEvent)
    → QueueInduction.After (Kept q) (receive_from i w ch q)
unfolding receive_from
receive_from-Kept i w ch q = ground arith

fire-Kept :
    (i : ℕ) (w : Worker WindowsEvent) (q : Queue WindowsEvent)
    → QueueInduction.After (Kept q) (fire i w q)
unfolding fire
fire-Kept i w q = ground arith

write_begin-Kept :
    (i : ℕ) (w : Worker WindowsEvent) (q : Queue WindowsEvent)
    → QueueInduction.After (Kept q) (write_begin i w q)
unfolding write_begin
write_begin-Kept i w q = ground arith

write_end-Kept :
    (i : ℕ) (ok : Bool) (now : ℕ) (w : Worker WindowsEvent) (q : Queue WindowsEvent)
    → QueueInduction.After (Kept q) (write_end i ok now w q)
unfolding write_end
write_end-Kept i ok now w q = ground arith

stop_wait-Kept :
    (timer : Bool) (ph : Phase) (q : Queue WindowsEvent)
    → QueueInduction.After (Kept q) (stop_wait timer ph q)
unfolding stop_wait
stop_wait-Kept timer ph q = ground arith

pub step-Kept :
    (a : Action WindowsEvent) (q : Queue WindowsEvent)
    → is_internal a ≡ true
    → QueueInduction.After (Kept q) (Queue.step a q)
unfolding Queue.step
step-Kept (enqueues e) q h = absurd (ground arith)
step-Kept stops q h = absurd (ground arith)
step-Kept drops q h = absurd (ground arith)
step-Kept (receives i) q h =
    at_worker-After (Kept q) (λ w q. receive_from i w q.ch q) q (get_elem? q.workers i)
      (λ w g. receive_from-Kept i w q.ch q)
step-Kept (fires i) q h =
    at_worker-After (Kept q) (fire i) q (get_elem? q.workers i) (λ w g. fire-Kept i w q)
step-Kept (begins i) q h =
    at_worker-After (Kept q) (write_begin i) q (get_elem? q.workers i)
      (λ w g. write_begin-Kept i w q)
step-Kept (ends i ok now) q h =
    at_worker-After (Kept q) (write_end i ok now) q (get_elem? q.workers i)
      (λ w g. write_end-Kept i ok now w q)
step-Kept (waits timer) q h = stop_wait-Kept timer q.phase q
