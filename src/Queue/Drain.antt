-- ===== src/Queue/Drain.antt =====
-- pkg/queue/queue.go: the workers empty a closed queue and stop.
use cee_exporter.Common.{
  ℕ, suc, ◌+◌, ◌*◌, ◌≤◌, ◌<◌, ◌≡◌, refl, ap, Bool, true, false, Option, none, some, List, [], ◌∷◌,
  ◌++◌, arith, length, get_elem?, total, total-set, every,
}
use mathlib.Core.Option.{some-injective}
use cee_exporter.Queue.Induction.{After, After-if}
use cee_exporter.Queue.{
  Worker, idle, filling, ready, writing, finished, Queue, Action, receives, fires, begins, ends,
  enqueues, stops, waits, drops, appended, receive_from, fire, write_begin, write_end, is_finished,
  all_finished, step, run,
}

module _ {E : Type 0} where
  abbrev rank : Worker E → ℕ
  rank idle = 1
  rank (filling b) = 4
  rank (ready b more) = 3
  rank (writing b more) = 2
  rank finished = 0

  -- The work that is left: the events to take out, and the worker's own turns.
  abbrev pub work_left : Queue E → ℕ
  work_left q = 5 * length q.ch + total rank q.workers

  -- A move of a worker goroutine.
  abbrev pub is_worker_move : Action E → Bool
  is_worker_move (receives i) = true
  is_worker_move (fires i) = true
  is_worker_move (begins i) = true
  is_worker_move (ends i ok now) = true
  is_worker_move _ = false

  rank-appended : (m : ℕ) (b : List E) → rank (appended m b) ≤ 4
  rank-appended m b = ground arith

  receive_from-decreases :
      (i : ℕ) (w : Worker E) (ch : List E) (q : Queue E)
      → q.ch ≡ ch
      → get_elem? q.workers i ≡ some w
      → After (λ q'. work_left q' < work_left q) (receive_from i w ch q)
  unfolding receive_from
  receive_from-decreases i idle (e ∷ rest) q c g =
      let w' = appended q.max_batch (e ∷ []) in
      omega (
        arith,
        total-set rank q.workers i idle w' g,
        rank-appended q.max_batch (e ∷ []),
        ap length c,
      )
  receive_from-decreases i idle [] q c g =
      After-if (λ q'. work_left q' < work_left q) q.closed _
        (λ y. omega (arith, total-set rank q.workers i idle finished g))
  receive_from-decreases i (filling b) (e ∷ rest) q c g =
      let w' = appended q.max_batch (b ++ e ∷ []) in
      omega (
        arith,
        total-set rank q.workers i (filling b) w' g,
        rank-appended q.max_batch (b ++ e ∷ []),
        ap length c,
      )
  receive_from-decreases i (filling b) [] q c g =
      After-if (λ q'. work_left q' < work_left q) q.closed _
        (λ y. omega (arith, total-set rank q.workers i (filling b) (ready b false) g))
  receive_from-decreases i _ ch q c g = tt

  fire-decreases :
      (i : ℕ) (w : Worker E) (q : Queue E)
      → get_elem? q.workers i ≡ some w
      → After (λ q'. work_left q' < work_left q) (fire i w q)
  unfolding fire
  fire-decreases i (filling b) q g =
      omega (arith, total-set rank q.workers i (filling b) (ready b true) g)
  fire-decreases i _ q g = tt

  write_begin-decreases :
      (i : ℕ) (w : Worker E) (q : Queue E)
      → get_elem? q.workers i ≡ some w
      → After (λ q'. work_left q' < work_left q) (write_begin i w q)
  unfolding write_begin
  write_begin-decreases i (ready b more) q g =
      omega (arith, total-set rank q.workers i (ready b more) (writing b more) g)
  write_begin-decreases i _ q g = tt

  write_end-decreases :
      (i : ℕ) (ok : Bool) (now : ℕ) (w : Worker E) (q : Queue E)
      → get_elem? q.workers i ≡ some w
      → After (λ q'. work_left q' < work_left q) (write_end i ok now w q)
  unfolding write_end
  write_end-decreases i ok now (writing b true) q g =
      omega (arith, total-set rank q.workers i (writing b true) idle g)
  write_end-decreases i ok now (writing b false) q g =
      omega (arith, total-set rank q.workers i (writing b false) finished g)
  write_end-decreases i ok now _ q g = tt

  at_worker-After :
      (P : Queue E → Type 0) (f : Worker E → Queue E → Option (Queue E)) (q : Queue E)
      (o : Option (Worker E))
      → ((w : Worker E) → o ≡ some w → After P (f w q))
      → After P (elim o [ none ↦ none | some w ↦ f w q ])
  at_worker-After P f q none h = tt
  at_worker-After P f q (some w) h = h w refl

  step-decreases :
      (a : Action E) (q : Queue E)
      → is_worker_move a ≡ true
      → After (λ q'. work_left q' < work_left q) (step a q)
  unfolding step
  step-decreases (receives i) q m =
      at_worker-After _ (λ w q. receive_from i w q.ch q) q (get_elem? q.workers i)
        (λ w g. receive_from-decreases i w q.ch q refl g)
  step-decreases (fires i) q m =
      at_worker-After _ (fire i) q (get_elem? q.workers i) (λ w g. fire-decreases i w q g)
  step-decreases (begins i) q m =
      at_worker-After _ (write_begin i) q (get_elem? q.workers i)
        (λ w g. write_begin-decreases i w q g)
  step-decreases (ends i ok now) q m =
      at_worker-After _ (write_end i ok now) q (get_elem? q.workers i)
        (λ w g. write_end-decreases i ok now w q g)
  step-decreases (enqueues e) q m = cc
  step-decreases stops q m = cc
  step-decreases (waits timer) q m = cc
  step-decreases drops q m = cc

  -- The workers cannot go on for ever without new events: a schedule of worker moves, whatever
  -- the writer answers and whichever timers fire, is at most as long as the work that is left.
  pub drain_bound :
      (as' : List (Action E)) (q q' : Queue E)
      → every is_worker_move as' ≡ true
      → run as' q ≡ some q'
      → length as' + work_left q' ≤ work_left q
  unfolding run
  drain_bound [] q q' m e = rw (some-injective _ _ e) (omega arith)
  drain_bound (a ∷ as') q q' m e =
      next (step a q) (step-decreases a q (ground arith)) e (drain_bound as')
    where
      next :
          (o : Option (Queue E))
          → After (λ r. work_left r < work_left q) o
          → (elim o [ none ↦ none | some r ↦ run as' r ]) ≡ some q'
          → ((q q' : Queue E)
              → every is_worker_move as' ≡ true
              → run as' q ≡ some q'
              → length as' + work_left q' ≤ work_left q)
          → suc (length as') + work_left q' ≤ work_left q
      next none h e k = cc
      next (some r) h e k = omega (arith, h, k r q' (ground arith) e)

  -- The first worker that has not stopped.
  unfinished :
      (ws : List (Worker E))
      → every is_finished ws ≡ false
      → (i : ℕ) × (w : Worker E) × (get_elem? ws i ≡ some w) × (is_finished w ≡ false)
  unfinished [] h = cc
  unfinished (finished ∷ ws) h = let (i, w, g, n) = unfinished ws h in (suc i, w, g, n)
  unfinished (idle ∷ ws) h = (0, idle, refl, refl)
  unfinished (filling b ∷ ws) h = (0, filling b, refl, refl)
  unfinished (ready b more ∷ ws) h = (0, ready b more, refl, refl)
  unfinished (writing b more ∷ ws) h = (0, writing b more, refl, refl)

  -- A worker that has not stopped can move, once the channel is closed.
  abbrev IsOpen : Option (Queue E) → Type 0
  IsOpen none = ⊥
  IsOpen (some q) = Unit

  IsOpen-some : (o : Option (Queue E)) → IsOpen o → (q' : Queue E) × (o ≡ some q')
  IsOpen-some none h = absurd h
  IsOpen-some (some q) h = (q, refl)

  abbrev CanMove : Queue E → Type 0
  CanMove q = (a : Action E) × (is_worker_move a ≡ true) × IsOpen (step a q)

  can_move :
      (i : ℕ) (w : Worker E) (ch : List E) (q : Queue E)
      → q.ch ≡ ch
      → q.closed ≡ true
      → get_elem? q.workers i ≡ some w
      → is_finished w ≡ false
      → CanMove q
  unfolding step receive_from write_begin write_end
  can_move i idle (e ∷ rest) q c y g n = (receives i, refl, ground arith)
  can_move i idle [] q c y g n = (receives i, refl, ground arith)
  can_move i (filling b) (e ∷ rest) q c y g n = (receives i, refl, ground arith)
  can_move i (filling b) [] q c y g n = (receives i, refl, ground arith)
  can_move i (ready b more) ch q c y g n = (begins i, refl, ground arith)
  can_move i (writing b more) ch q c y g n = (ends i true 0, refl, ground arith)
  can_move i finished ch q c y g n = cc

  -- After the close, as long as a worker has not stopped, some worker can move.
  pub drain_progress :
      (q : Queue E)
      → q.closed ≡ true
      → all_finished q ≡ false
      → (a : Action E) × (q' : Queue E) × (is_worker_move a ≡ true) × (step a q ≡ some q')
  drain_progress q y h =
      let (i, w, g, n) = unfinished q.workers h in
      let (a, m, o) = can_move i w q.ch q refl y g n in
      let (q', e) = IsOpen-some (step a q) o in (a, q', m, e)
