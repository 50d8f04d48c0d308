-- ===== src/Queue/Counters.antt =====
-- pkg/queue/queue.go: what the metrics say of the events that the queue was offered.
use cee_exporter.Common.{
  ℕ, ◌+◌, ◌%◌, ◌^◌, ◌≡◌, refl, Bool, true, false, some, List, [], ◌∷◌, ◌++◌, arith, if◌then◌else◌,
  length, get_elem?, length-append,
}
use cee_exporter.Metrics.{Store}
use cee_exporter.Queue.Induction.{After, Rules, Rules-run}
use cee_exporter.Queue.{
  Config, Worker, writing, Queue, Action, start, enqueue, receive_from, fire, write_begin,
  write_end, stop, stop_wait, drop_payload, Phase, running, run,
}

-- The events in the completed writer calls with outcome `ok`.
abbrev pub outcome {ℓ} : {E : Type ℓ} → Bool → List (List E × Bool) → ℕ
outcome ok [] = 0
outcome true ((b, true) ∷ cs) = length b + outcome true cs
outcome true ((b, false) ∷ cs) = outcome true cs
outcome false ((b, true) ∷ cs) = outcome false cs
outcome false ((b, false) ∷ cs) = length b + outcome false cs

module _ {E : Type 0} where
  outcome-true :
      (cs : List (List E × Bool)) (b : List E) (ok : Bool)
      → outcome true (cs ++ (b, ok) ∷ []) ≡ outcome true cs + (if ok then length b else 0)
  outcome-true [] b true = omega arith
  outcome-true [] b false = omega arith
  outcome-true ((x, true) ∷ cs) b ok = omega (arith, outcome-true cs b ok)
  outcome-true ((x, false) ∷ cs) b ok = outcome-true cs b ok

  outcome-false :
      (cs : List (List E × Bool)) (b : List E) (ok : Bool)
      → outcome false (cs ++ (b, ok) ∷ []) ≡ outcome false cs + (if ok then 0 else length b)
  outcome-false [] b true = omega arith
  outcome-false [] b false = omega arith
  outcome-false ((x, true) ∷ cs) b ok = outcome-false cs b ok
  outcome-false ((x, false) ∷ cs) b ok = omega (arith, outcome-false cs b ok)

  -- Against the store `m` that the queue started with. The counters have 64 bits.
  pub record IsCounted (m : Store) (q : Queue E) : Type 0 where
    pub written :
        q.metrics.events_written_total % 2 ^ 64
        ≡ (m.events_written_total + outcome true q.calls) % 2 ^ 64
    pub failed :
        q.metrics.writer_errors_total % 2 ^ 64
        ≡ (m.writer_errors_total + outcome false q.calls) % 2 ^ 64
    pub dropped :
        q.metrics.events_dropped_total % 2 ^ 64
        ≡ (m.events_dropped_total + length q.refused + q.reported_drops + q.handler_drops) % 2 ^ 64
    pub open_running : q.closed ≡ false → q.phase ≡ running

  module _ (m : Store) where
    enqueue-IsCounted : (e : E) (q : Queue E) → IsCounted m q → IsCounted m (enqueue e q).0
    unfolding enqueue
    enqueue-IsCounted e q h =
        ground
          (arith, h.written, h.failed, h.dropped, h.open_running, length-append q.refused (e ∷ []))

    receive_from-IsCounted :
        (i : ℕ) (w : Worker E) (ch : List E) (q : Queue E)
        → q.ch ≡ ch
        → get_elem? q.workers i ≡ some w
        → IsCounted m q
        → After (IsCounted m) (receive_from i w ch q)
    unfolding receive_from
    receive_from-IsCounted i w ch q c g h =
        ground (arith, h.written, h.failed, h.dropped, h.open_running)

    fire-IsCounted :
        (i : ℕ) (w : Worker E) (q : Queue E)
        → get_elem? q.workers i ≡ some w
        → IsCounted m q
        → After (IsCounted m) (fire i w q)
    unfolding fire
    fire-IsCounted i w q g h = ground (arith, h.written, h.failed, h.dropped, h.open_running)

    write_begin-IsCounted :
        (i : ℕ) (w : Worker E) (q : Queue E)
        → get_elem? q.workers i ≡ some w
        → IsCounted m q
        → After (IsCounted m) (write_begin i w q)
    unfolding write_begin
    write_begin-IsCounted i w q g h = ground (arith, h.written, h.failed, h.dropped, h.open_running)

    write_end-IsCounted :
        (i : ℕ) (ok : Bool) (now : ℕ) (w : Worker E) (q : Queue E)
        → get_elem? q.workers i ≡ some w
        → IsCounted m q
        → After (IsCounted m) (write_end i ok now w q)
    unfolding write_end
    write_end-IsCounted i ok now (writing b more) q g h = ground (
      arith,
      h.written,
      h.failed,
      h.dropped,
      h.open_running,
      outcome-true q.calls b ok,
      outcome-false q.calls b ok,
    )
    write_end-IsCounted i ok now _ q g h = tt

    stop-IsCounted : (q : Queue E) → IsCounted m q → IsCounted m (stop q)
    unfolding stop
    stop-IsCounted q h = ground (arith, h.written, h.failed, h.dropped, h.open_running)

    stop_wait-IsCounted :
        (timer : Bool) (ph : Phase) (q : Queue E)
        → q.phase ≡ ph
        → IsCounted m q
        → After (IsCounted m) (stop_wait timer ph q)
    unfolding stop_wait
    stop_wait-IsCounted timer ph q e h =
        ground (arith, h.written, h.failed, h.dropped, h.open_running)

    drop_payload-IsCounted : (q : Queue E) → IsCounted m q → IsCounted m (drop_payload q)
    unfolding drop_payload
    drop_payload-IsCounted q h = ground (arith, h.written, h.failed, h.dropped, h.open_running)

    IsCounted-Rules : Rules (IsCounted m)
    IsCounted-Rules = record {
      at_enqueue = enqueue-IsCounted;
      at_receive = receive_from-IsCounted;
      at_fire = fire-IsCounted;
      at_begin = write_begin-IsCounted;
      at_end = write_end-IsCounted;
      at_stop = stop-IsCounted;
      at_wait = stop_wait-IsCounted;
      at_drop = drop_payload-IsCounted;
    }

  start-IsCounted : (c : Config) (m : Store) → IsCounted m (start {E = E} c m)
  unfolding start
  start-IsCounted c m = record {
    written = omega arith;
    failed = omega arith;
    dropped = omega arith;
    open_running = λ e. refl;
  }

  -- At every moment `EventsWrittenTotal` has grown by the events of the writer calls that
  -- succeeded, `WriterErrorsTotal` by the events of those that failed, and `EventsDroppedTotal` by
  -- the events that `Enqueue` refused, those that the drain-timeout report of `Stop` counted and
  -- the payloads that handlers counted as dropped on their own, each modulo its 64 bits.
  pub run-IsCounted :
      (c : Config) (m : Store) (as' : List (Action E)) (q : Queue E)
      → run as' (start c m) ≡ some q
      → IsCounted m q
  run-IsCounted c m as' q e =
      Rules-run (IsCounted m) (IsCounted-Rules m) as' _ q e (start-IsCounted c m)
