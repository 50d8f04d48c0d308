-- ===== src/Queue/Valid.antt =====
-- pkg/queue/queue.go: the well-formedness of the queue between two steps.
mod Places
use mathlib.Core.Bool.{true≢false}
use cee_exporter.Common.{
  ◌≢◌, ◌∙◌, if-both, Bool-cases, inl, inr, sym, length-replicate, ap, ltb, Bool-cases, ℕ, ◌≤◌, ◌<◌,
  ◌≡◌, refl, Bool, true, false, some, List, [], ◌∷◌, ◌++◌, arith, inl, inr, if◌then◌else◌, length,
  get_elem?, set, total, total-set, total-replicate, length-append, length-set, All, All-set,
  All-get, All-replicate, All-map, All-snoc,
}
use cee_exporter.Metrics.{Store}
use cee_exporter.Queue.Induction.{After, After-if, Rules, Rules-run}
use cee_exporter.Queue.{
  Config, Worker, idle, filling, ready, writing, finished, Queue, Action, start, enqueue, appended,
  receive_from, fire, write_begin, write_end, stop, stop_wait, drop_payload, Phase, running,
  draining, grace, reported, closing, stopped, finish_stop, all_finished, run,
}
use cee_exporter.Queue.Valid.Places.{WorkerOk-mono, at_place, moved, moved-IsValid, taken-IsValid}
pub use cee_exporter.Queue.Valid.Places.{IsDrained, IsBatch, WorkerOk, in_call, IsValid}

module _ {E : Type 0} where
  module _ (e : E) (q : Queue E) where
    workers-enqueue : (enqueue e q).0.workers ≡ q.workers
    unfolding enqueue
    workers-enqueue = ground arith

    max_batch-enqueue : (enqueue e q).0.max_batch ≡ q.max_batch
    unfolding enqueue
    max_batch-enqueue = ground arith

    calls-enqueue : (enqueue e q).0.calls ≡ q.calls
    unfolding enqueue
    calls-enqueue = ground arith

    IsDrained-enqueue : IsDrained q → IsDrained (enqueue e q).0
    unfolding enqueue
    IsDrained-enqueue d = ground arith

    enqueue-IsValid : IsValid q → IsValid (enqueue e q).0
    enqueue-IsValid h = record {
      max_pos = rw max_batch-enqueue h.max_pos;
      workers_pos = rw workers-enqueue h.workers_pos;
      within = unfold enqueue in ground (arith, length-append q.ch (e ∷ []), h.within);
      workers_ok =
          rw (max_batch-enqueue, workers-enqueue)
            (All-map _ _ q.workers (WorkerOk-mono q.max_batch IsDrained-enqueue) h.workers_ok);
      in_flight_exact = unfold enqueue in ground (arith, h.in_flight_exact);
      calls_ok = rw (max_batch-enqueue, calls-enqueue) h.calls_ok;
      closed_phase = unfold enqueue in ground (arith, h.closed_phase);
      phase_closed = unfold enqueue in ground (arith, h.phase_closed);
    }

  receive_from-IsValid :
      (i : ℕ) (w : Worker E) (ch : List E) (q : Queue E)
      → q.ch ≡ ch
      → get_elem? q.workers i ≡ some w
      → IsValid q
      → After IsValid (receive_from i w ch q)
  unfolding receive_from
  receive_from-IsValid i idle (e ∷ rest) q c g h =
      taken-IsValid q h i idle (e ∷ []) e rest g c refl (omega arith) (omega (arith, h.max_pos))
  receive_from-IsValid i idle [] q c g h =
      After-if IsValid q.closed _ (λ y. moved-IsValid q h i idle finished g refl (y, c))
  receive_from-IsValid i (filling b) (e ∷ rest) q c g h =
      let ok = at_place q h i (filling b) g in
      taken-IsValid q h i (filling b) (b ++ e ∷ []) e rest g c refl
        (omega (arith, length-append b (e ∷ []))) (omega (arith, length-append b (e ∷ []), ok.1))
  receive_from-IsValid i (filling b) [] q c g h =
      let ok = at_place q h i (filling b) g in
      After-if IsValid q.closed _ (λ y.
        moved-IsValid q h i (filling b) (ready b false) g refl ((ok.0, omega arith), λ _. (y, c)))
  receive_from-IsValid i _ ch q c g h = tt

  fire-IsValid :
      (i : ℕ) (w : Worker E) (q : Queue E)
      → get_elem? q.workers i ≡ some w
      → IsValid q
      → After IsValid (fire i w q)
  unfolding fire
  fire-IsValid i (filling b) q g h =
      let ok = at_place q h i (filling b) g in
      moved-IsValid q h i (filling b) (ready b true) g refl
        ((ok.0, omega arith), λ e. absurd (true≢false e))
  fire-IsValid i _ q g h = tt

  write_begin-IsValid :
      (i : ℕ) (w : Worker E) (q : Queue E)
      → get_elem? q.workers i ≡ some w
      → IsValid q
      → After IsValid (write_begin i w q)
  unfolding write_begin
  write_begin-IsValid i (ready b more) q g h = record {
    max_pos = h.max_pos;
    workers_pos = rw length-set h.workers_pos;
    within = h.within;
    workers_ok = moved q h i (writing b more) (λ d. d) (at_place q h i (ready b more) g);
    in_flight_exact =
        omega (
          arith,
          total-set in_call q.workers i (ready b more) (writing b more) g,
          h.in_flight_exact,
        );
    calls_ok = h.calls_ok;
    closed_phase = h.closed_phase;
    phase_closed = h.phase_closed;
  }
  write_begin-IsValid i _ q g h = tt

  write_end-IsValid :
      (i : ℕ) (ok : Bool) (now : ℕ) (w : Worker E) (q : Queue E)
      → get_elem? q.workers i ≡ some w
      → IsValid q
      → After IsValid (write_end i ok now w q)
  unfolding write_end
  write_end-IsValid i ok now (writing b more) q g h =
      let here = at_place q h i (writing b more) g in
      let w' : Worker E = if more then idle else finished in
      record {
        max_pos = h.max_pos;
        workers_pos = rw length-set h.workers_pos;
        within = h.within;
        workers_ok = moved q h i w' (λ d. d) (next_ok more here.1);
        in_flight_exact = omega (
          arith,
          total-set in_call q.workers i (writing b more) w' g,
          in_call-next more,
          h.in_flight_exact,
        );
        calls_ok = All-snoc _ q.calls (b, ok) h.calls_ok here.0;
        closed_phase = h.closed_phase;
        phase_closed = h.phase_closed;
      }
    where
      next_ok :
          (more : Bool)
          → (more ≡ false → IsDrained q)
          → WorkerOk {E = E} q.max_batch (IsDrained q) (if more then idle else finished)
      next_ok true f = tt
      next_ok false f = f refl

      in_call-next :
          (more : Bool) → (let w : Worker E = if more then idle else finished in in_call w) ≡ 0
      in_call-next true = refl
      in_call-next false = refl
  write_end-IsValid i ok now _ q g h = tt

  stop-IsValid : (q : Queue E) → IsValid q → IsValid (stop q)
  unfolding stop
  stop-IsValid q h = go q.closed refl
    where
      go :
          (b : Bool)
          → q.closed ≡ b
          → IsValid (if b then q else record q { closed = true; phase = draining })
      go true y = h
      go false n = record {
        max_pos = h.max_pos;
        workers_pos = h.workers_pos;
        within = h.within;
        workers_ok =
            All-map _ _ q.workers (WorkerOk-mono q.max_batch (λ (d : IsDrained q). (refl, d.1)))
              h.workers_ok;
        in_flight_exact = h.in_flight_exact;
        calls_ok = h.calls_ok;
        closed_phase = λ e. cc;
        phase_closed = λ e. cc;
      }

  -- `Stop` goes from one of its phases to another.
  phase-IsValid :
      (ph : Phase) (c : Bool) (m : Store) (d : ℕ) (q : Queue E)
      → ph ≢ running
      → q.closed ≡ true
      → IsValid q
      → IsValid (record q { phase = ph; writer_closed = c; metrics = m; reported_drops = d })
  phase-IsValid ph c m d q n k h = record {
    max_pos = h.max_pos;
    workers_pos = h.workers_pos;
    within = h.within;
    workers_ok = h.workers_ok;
    in_flight_exact = h.in_flight_exact;
    calls_ok = h.calls_ok;
    closed_phase = λ e. absurd (true≢false (sym k ∙ e));
    phase_closed = λ e. absurd (n e);
  }

  is_closed : (q : Queue E) → q.phase ≢ running → IsValid q → q.closed ≡ true
  is_closed q n h = elim (Bool-cases q.closed) [ inl y ↦ y | inr x ↦ absurd (n (h.closed_phase x)) ]

  finish_stop-IsValid : (q : Queue E) → q.closed ≡ true → IsValid q → IsValid (finish_stop q)
  finish_stop-IsValid q k h =
      if-both IsValid (all_finished q) _ _
        (phase-IsValid closing true q.metrics q.reported_drops q (λ e. cc) k h)
        (phase-IsValid stopped q.writer_closed q.metrics q.reported_drops q (λ e. cc) k h)

  stop_wait-IsValid :
      (timer : Bool) (ph : Phase) (q : Queue E)
      → q.phase ≡ ph
      → IsValid q
      → After IsValid (stop_wait timer ph q)
  unfolding stop_wait
  stop_wait-IsValid true draining q e h =
      phase-IsValid grace q.writer_closed q.metrics q.reported_drops q (λ e. cc)
        (is_closed q (λ r. cc) h) h
  stop_wait-IsValid true grace q e h =
      phase-IsValid reported q.writer_closed _ _ q (λ e. cc) (is_closed q (λ r. cc) h) h
  stop_wait-IsValid false draining q e h =
      After-if IsValid (all_finished q) _ (λ y. finish_stop-IsValid q (is_closed q (λ r. cc) h) h)
  stop_wait-IsValid false grace q e h =
      After-if IsValid (all_finished q) _
        (λ y. phase-IsValid reported q.writer_closed _ _ q (λ e. cc) (is_closed q (λ r. cc) h) h)
  stop_wait-IsValid false reported q e h = finish_stop-IsValid q (is_closed q (λ r. cc) h) h
  stop_wait-IsValid false closing q e h =
      phase-IsValid stopped q.writer_closed q.metrics q.reported_drops q (λ e. cc)
        (is_closed q (λ r. cc) h) h
  stop_wait-IsValid timer _ q e h = tt

  drop_payload-IsValid : (q : Queue E) → IsValid q → IsValid (drop_payload q)
  unfolding drop_payload
  drop_payload-IsValid q h = record {
    max_pos = h.max_pos;
    workers_pos = h.workers_pos;
    within = h.within;
    workers_ok = h.workers_ok;
    in_flight_exact = h.in_flight_exact;
    calls_ok = h.calls_ok;
    closed_phase = h.closed_phase;
    phase_closed = h.phase_closed;
  }

  pub IsValid-Rules : Rules {E = E} IsValid
  IsValid-Rules = record {
    at_enqueue = enqueue-IsValid;
    at_receive = receive_from-IsValid;
    at_fire = fire-IsValid;
    at_begin = write_begin-IsValid;
    at_end = write_end-IsValid;
    at_stop = stop-IsValid;
    at_wait = stop_wait-IsValid;
    at_drop = drop_payload-IsValid;
  }

  start-IsValid : (c : Config) (m : Store) → IsValid (start {E = E} c m)
  unfolding start
  start-IsValid c m = record {
    max_pos = ground arith;
    workers_pos = rw length-replicate (ground arith);
    within = omega arith;
    workers_ok = All-replicate _ _ idle tt;
    in_flight_exact = sym (total-replicate in_call _ idle refl);
    calls_ok = tt;
    closed_phase = λ e. refl;
    phase_closed = λ e. refl;
  }

  -- From the start, whatever happens in whatever order: the channel holds at most `Capacity`
  -- events, every batch given to the writer has between 1 and `MaxBatch` events, `inFlight` is
  -- exactly the number of events inside writer calls, a worker has stopped only if the channel is
  -- closed and empty, and `Stop` has begun exactly when the channel is closed.
  pub run-IsValid :
      (c : Config) (m : Store) (as' : List (Action E)) (q : Queue E)
      → run as' (start c m) ≡ some q
      → IsValid q
  run-IsValid c m as' q e = Rules-run IsValid IsValid-Rules as' _ q e (start-IsValid c m)
