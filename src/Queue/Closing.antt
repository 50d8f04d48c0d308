-- ===== src/Queue/Closing.antt =====
-- pkg/queue/queue.go: `Stop` closes the writer last.
use mathlib.Core.Bool.{false≢true}
use cee_exporter.Common.{
  ℕ, zero, suc, ◌≡◌, refl, sym, ◌∙◌, Bool, true, false, some, List, [], ◌∷◌, arith, inl, inr,
  get_elem?, every, Bool-cases,
}
use cee_exporter.Metrics.{Store}
use cee_exporter.Queue.Induction.{After, Rules, Rules-run}
use cee_exporter.Queue.{
  Config, Worker, idle, filling, ready, writing, Queue, Action, start, enqueue, receive_from, fire,
  write_begin, write_end, stop, stop_wait, drop_payload, Phase, is_finished, all_finished, run,
}

module _ {E : Type 0} where
  -- The writer is closed only behind the last write.
  abbrev ClosesLast : Queue E → Type 0
  ClosesLast q = q.writer_closed ≡ true → all_finished q ≡ true

  finished-get :
      (ws : List (Worker E)) (i : ℕ) (w : Worker E)
      → every is_finished ws ≡ true
      → get_elem? ws i ≡ some w
      → is_finished w ≡ true
  finished-get (x ∷ ws) zero w h g = ground arith
  finished-get (x ∷ ws) (suc i) w h g = finished-get ws i w (ground arith) g
  finished-get [] i w h g = ground arith

  -- A worker that moves was not finished, and so the writer is open.
  still_open :
      (i : ℕ) (w : Worker E) (q : Queue E)
      → get_elem? q.workers i ≡ some w
      → is_finished w ≡ false
      → ClosesLast q
      → q.writer_closed ≡ false
  still_open i w q g n h = elim (Bool-cases q.writer_closed) [
    | inl y ↦ absurd (false≢true (sym n ∙ finished-get q.workers i w (h y) g))
    | inr x ↦ x
  ]

  receive_from-ClosesLast :
      (i : ℕ) (w : Worker E) (ch : List E) (q : Queue E)
      → q.ch ≡ ch
      → get_elem? q.workers i ≡ some w
      → ClosesLast q
      → After ClosesLast (receive_from i w ch q)
  unfolding receive_from
  receive_from-ClosesLast i idle ch q c g h = ground (arith, still_open i idle q g refl h)
  receive_from-ClosesLast i (filling b) ch q c g h =
      ground (arith, still_open i (filling b) q g refl h)
  receive_from-ClosesLast i _ ch q c g h = tt

  fire-ClosesLast :
      (i : ℕ) (w : Worker E) (q : Queue E)
      → get_elem? q.workers i ≡ some w
      → ClosesLast q
      → After ClosesLast (fire i w q)
  unfolding fire
  fire-ClosesLast i (filling b) q g h = ground (arith, still_open i (filling b) q g refl h)
  fire-ClosesLast i _ q g h = tt

  write_begin-ClosesLast :
      (i : ℕ) (w : Worker E) (q : Queue E)
      → get_elem? q.workers i ≡ some w
      → ClosesLast q
      → After ClosesLast (write_begin i w q)
  unfolding write_begin
  write_begin-ClosesLast i (ready b more) q g h =
      ground (arith, still_open i (ready b more) q g refl h)
  write_begin-ClosesLast i _ q g h = tt

  write_end-ClosesLast :
      (i : ℕ) (ok : Bool) (now : ℕ) (w : Worker E) (q : Queue E)
      → get_elem? q.workers i ≡ some w
      → ClosesLast q
      → After ClosesLast (write_end i ok now w q)
  unfolding write_end
  write_end-ClosesLast i ok now (writing b more) q g h =
      λ y. absurd (false≢true (sym (still_open i (writing b more) q g refl h) ∙ y))
  write_end-ClosesLast i ok now _ q g h = tt

  enqueue-ClosesLast : (e : E) (q : Queue E) → ClosesLast q → ClosesLast (enqueue e q).0
  unfolding enqueue
  enqueue-ClosesLast e q h = ground arith

  stop-ClosesLast : (q : Queue E) → ClosesLast q → ClosesLast (stop q)
  unfolding stop
  stop-ClosesLast q h = ground arith

  stop_wait-ClosesLast :
      (timer : Bool) (ph : Phase) (q : Queue E)
      → q.phase ≡ ph
      → ClosesLast q
      → After ClosesLast (stop_wait timer ph q)
  unfolding stop_wait
  stop_wait-ClosesLast timer ph q e h = ground arith

  drop_payload-ClosesLast : (q : Queue E) → ClosesLast q → ClosesLast (drop_payload q)
  unfolding drop_payload
  drop_payload-ClosesLast q h = h

  ClosesLast-Rules : Rules ClosesLast
  ClosesLast-Rules = record {
    at_enqueue = enqueue-ClosesLast;
    at_receive = receive_from-ClosesLast;
    at_fire = fire-ClosesLast;
    at_begin = write_begin-ClosesLast;
    at_end = write_end-ClosesLast;
    at_stop = stop-ClosesLast;
    at_wait = stop_wait-ClosesLast;
    at_drop = drop_payload-ClosesLast;
  }

  -- Whatever the schedule and however often a timer wins, `Close` has been called on the writer
  -- only if every worker has stopped: no `WriteBatch` runs beside `Close` or after it.
  pub run-ClosesLast :
      (c : Config) (m : Store) (as' : List (Action E)) (q : Queue E)
      → run as' (start c m) ≡ some q
      → q.writer_closed ≡ true
      → all_finished q ≡ true
  run-ClosesLast c m as' q r =
      Rules-run ClosesLast ClosesLast-Rules as' _ q r (λ y. absurd (false≢true (unfold start in y)))
