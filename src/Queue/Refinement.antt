-- ===== src/Queue/Refinement.antt =====
-- The moves of pkg/queue/queue.go are moves of its ledger.
use mathlib.Core.Quot
use mathlib.Core.Quot.{Quot, Quot-set}
use mathlib.Core.Option.{some-injective}
use cee_exporter.Common.{
  ℕ, ◌+◌, ◌≡◌, refl, sym, ap, ◌∙◌, Bool, true, false, Option, none, some, List, [], ◌∷◌, ◌++◌,
  arith, if◌then◌else◌, get_elem?, total, count, count-append, total-set, set, ltb, length, if-both,
}
use cee_exporter.Queue.Conservation.{total-snoc, held_by, held, held_by-appended}
use cee_exporter.Queue.Induction.{After, After-if, at_worker-After}
use cee_exporter.Queue.{
  Worker, idle, filling, ready, writing, finished, Queue, Action, enqueues, receives, fires, begins,
  ends, stops, waits, enqueue, appended, receive_from, fire, write_begin, write_end, stop,
  stop_wait, Phase, running, draining, grace, stopped, reported, closing, drops, drop_payload,
  all_finished, step, run,
}
use cee_exporter.Queue.Ledger.{
  Ledger, add, flat, count-flat, waiting, written, ledger, Allowed, Replays, told, answered,
}

module _ {ℓ} {E : Type ℓ} where
  count-waiting : (p : E → Bool) (q : Queue E) → count p (waiting q) ≡ count p q.ch + held p q
  count-waiting p q =
      omega (arith, count-append p q.ch (flat held_by q.workers), count-flat p held_by q.workers)

  ledger_path : {s t : Ledger E} → t.pending ≡ s.pending → t.delivered ≡ s.delivered → t ≡ s
  ledger_path {s} {t} e f =
      ap (λ x. record { pending = x; delivered = t.delivered }) e
      ∙ ap (λ x. record { pending = s.pending; delivered = x }) f

  -- Two queues with the same counts have the same ledger.
  same_ledger :
      (q q' : Queue E)
      → ((p : E → Bool) → count p q'.ch + held p q' ≡ count p q.ch + held p q)
      → q'.calls ≡ q.calls
      → ledger q' ≡ ledger q
  same_ledger q q' h c =
      ledger_path (Quot.sound (λ p. omega (arith, h p, count-waiting p q, count-waiting p q')))
        (ap (λ cs. Quot.mk (flat (λ (c : List E × Bool). c.0) cs)) c)

  abbrev Stays : Queue E → Queue E → Type ℓ
  Stays q q' = ledger q' ≡ ledger q

  -- A worker takes its place `w'` with what it held and what it took from the channel.
  worker-Stays :
      (q q' : Queue E) (i : ℕ) (w w' : Worker E)
      → get_elem? q.workers i ≡ some w
      → q'.workers ≡ set q.workers i w'
      → q'.calls ≡ q.calls
      → ((p : E → Bool) → count p q'.ch + count p (held_by w') ≡ count p q.ch + count p (held_by w))
      → Stays q q'
  worker-Stays q q' i w w' g e c h =
      same_ledger q q'
        (λ p. omega (
          arith,
          h p,
          total-set (λ w. count p (held_by w)) q.workers i w w' g,
          ap (λ ws. total (λ w. count p (held_by w)) ws) e,
        ))
        c

  receive_from-Stays :
      (i : ℕ) (w : Worker E) (ch : List E) (q : Queue E)
      → q.ch ≡ ch
      → get_elem? q.workers i ≡ some w
      → After (Stays q) (receive_from i w ch q)
  unfolding receive_from
  receive_from-Stays i idle (e ∷ rest) q c g =
      let w' = appended q.max_batch (e ∷ []) in
      worker-Stays q (record q { ch = rest; workers = set q.workers i w' }) i idle w' g refl refl
        (λ p. omega (arith, ap (count p) (held_by-appended q.max_batch (e ∷ [])), ap (count p) c))
  receive_from-Stays i idle [] q c g = After-if (Stays q) q.closed _ (λ _.
      worker-Stays q (record q { workers = set q.workers i finished }) i idle finished g refl refl
        (λ p. refl))
  receive_from-Stays i (filling b) (e ∷ rest) q c g =
      let w' = appended q.max_batch (b ++ e ∷ []) in
      worker-Stays q (record q { ch = rest; workers = set q.workers i w' }) i (filling b) w' g refl
        refl
        (λ p. omega (
          arith,
          ap (count p) (held_by-appended q.max_batch (b ++ e ∷ [])),
          count-append p b (e ∷ []),
          ap (count p) c,
        ))
  receive_from-Stays i (filling b) [] q c g = After-if (Stays q) q.closed _ (λ _.
      worker-Stays q (record q { workers = set q.workers i (ready b false) }) i (filling b)
        (ready b false) g refl refl (λ p. refl))
  receive_from-Stays i _ ch q c g = tt

  fire-Stays :
      (i : ℕ) (w : Worker E) (q : Queue E)
      → get_elem? q.workers i ≡ some w
      → After (Stays q) (fire i w q)
  unfolding fire
  fire-Stays i (filling b) q g =
      worker-Stays q (record q { workers = set q.workers i (ready b true) }) i (filling b)
        (ready b true) g refl refl (λ p. refl)
  fire-Stays i _ q g = tt

  write_begin-Stays :
      (i : ℕ) (w : Worker E) (q : Queue E)
      → get_elem? q.workers i ≡ some w
      → After (Stays q) (write_begin i w q)
  unfolding write_begin
  write_begin-Stays i (ready b more) q g =
      worker-Stays q (record q { workers = set q.workers i (writing b more) }) i (ready b more)
        (writing b more) g refl refl (λ p. refl)
  write_begin-Stays i _ q g = tt

  stop_wait-Stays :
      (timer : Bool) (ph : Phase) (q : Queue E) → After (Stays q) (stop_wait timer ph q)
  unfolding stop_wait
  stop_wait-Stays true draining q = refl
  stop_wait-Stays true grace q = refl
  stop_wait-Stays false draining q =
      After-if (Stays q) (all_finished q) _ (λ _. if-both (Stays q) (all_finished q) _ _ refl refl)
  stop_wait-Stays false grace q = After-if (Stays q) (all_finished q) _ (λ _. refl)
  stop_wait-Stays false reported q = if-both (Stays q) (all_finished q) _ _ refl refl
  stop_wait-Stays false closing q = refl
  stop_wait-Stays true running q = tt
  stop_wait-Stays true reported q = tt
  stop_wait-Stays true closing q = tt
  stop_wait-Stays true stopped q = tt
  stop_wait-Stays false running q = tt
  stop_wait-Stays false stopped q = tt

  held_by-turn : (more : Bool) → held_by {E = E} (if more then idle else finished) ≡ []
  held_by-turn true = refl
  held_by-turn false = refl

  -- The end of a writer's call moves the batch that it was given.
  write_end-Allowed :
      (i : ℕ) (ok : Bool) (now : ℕ) (w : Worker E) (q : Queue E)
      → get_elem? q.workers i ≡ some w
      → After (λ q'. Allowed (ends i ok now) false (ledger q) (ledger q')) (write_end i ok now w q)
  unfolding write_end add
  write_end-Allowed i ok now (writing b more) q g =
      let w' : Worker E = if more then idle else finished in
      let left = q.ch ++ flat held_by (set q.workers i w') in
      (
        b,
        Quot.mk left,
        Quot.sound (λ p. omega (
          arith,
          count-waiting p q,
          count-append p b left,
          count-append p q.ch (flat held_by (set q.workers i w')),
          count-flat p held_by (set q.workers i w'),
          total-set (λ w. count p (held_by w)) q.workers i (writing b more) w' g,
          ap (count p) (held_by-turn more),
        )),
        ledger_path refl (
            Quot.sound (λ p. omega (
              arith,
              count-flat p (λ (c : List E × Bool). c.0) (q.calls ++ (b, ok) ∷ []),
              count-flat p (λ (c : List E × Bool). c.0) q.calls,
              count-append p b (written q),
              total-snoc (λ (c : List E × Bool). count p c.0) q.calls (b, ok),
            ))),
      )
  write_end-Allowed i ok now _ q g = tt

  enqueue-Allowed :
      (e : E) (q : Queue E)
      → Allowed (enqueues e) (enqueue e q).1 (ledger q) (ledger (enqueue e q).0)
  unfolding enqueue add
  enqueue-Allowed e q =
      if-both (λ (r : Queue E × Bool). Allowed (enqueues e) r.1 (ledger q) (ledger r.0)) q.closed _
        _ refl
        (if-both (λ (r : Queue E × Bool). Allowed (enqueues e) r.1 (ledger q) (ledger r.0))
          (ltb (length q.ch) q.capacity) _ _
          (ledger_path
            (Quot.sound (λ p. omega (
              arith,
              count-append p (q.ch ++ e ∷ []) (flat held_by q.workers),
              count-append p q.ch (e ∷ []),
              count-append p (e ∷ []) (waiting q),
              count-waiting p q,
              count-flat p held_by q.workers,
            )))
            refl)
          refl)

  stop-Stays : (q : Queue E) → Stays q (stop q)
  unfolding stop
  stop-Stays q = if-both (Stays q) q.closed _ _ refl refl

  step-Allowed :
      (a : Action E) (q : Queue E)
      → After (λ q'. Allowed a (told a q) (ledger q) (ledger q')) (step a q)
  unfolding step
  step-Allowed (enqueues e) q = enqueue-Allowed e q
  step-Allowed (receives i) q =
      at_worker-After (Stays q) (λ w q. receive_from i w q.ch q) q (get_elem? q.workers i)
        (λ w g. receive_from-Stays i w q.ch q refl g)
  step-Allowed (fires i) q =
      at_worker-After (Stays q) (fire i) q (get_elem? q.workers i) (λ w g. fire-Stays i w q g)
  step-Allowed (begins i) q =
      at_worker-After (Stays q) (write_begin i) q (get_elem? q.workers i)
        (λ w g. write_begin-Stays i w q g)
  step-Allowed (ends i ok now) q =
      at_worker-After (λ q'. Allowed (ends i ok now) false (ledger q) (ledger q'))
        (write_end i ok now) q (get_elem? q.workers i) (λ w g. write_end-Allowed i ok now w q g)
  step-Allowed stops q = stop-Stays q
  step-Allowed (waits timer) q = stop_wait-Stays timer q.phase q
  step-Allowed drops q = unfold drop_payload in refl

  -- Every schedule of the queue is a history of the ledger, with the answers of `Enqueue`: an event
  -- whose `Enqueue` answered true is pending once more and one that was answered false changes
  -- nothing, a completed call of the writer takes from what is pending the batch it was given, and
  -- no other move of a worker, a timer, a handler or `Stop` changes what is pending or delivered.
  pub run-Replays :
      (as' : List (Action E)) (q q' : Queue E)
      → run as' q ≡ some q'
      → Replays (answered as' q) (ledger q) (ledger q')
  unfolding run answered
  run-Replays [] q q' e = ap ledger (sym (some-injective _ _ e))
  run-Replays (a ∷ as') q q' e = next (step a q) (step-Allowed a q) e (run-Replays as')
    where
      next :
          (o : Option (Queue E))
          → After (λ m. Allowed a (told a q) (ledger q) (ledger m)) o
          → (elim o [ none ↦ none | some m ↦ run as' m ]) ≡ some q'
          → ((m n : Queue E) → run as' m ≡ some n → Replays (answered as' m) (ledger m) (ledger n))
          → Replays
              ((a, told a q) ∷ (elim o [ none ↦ [] | some m ↦ answered as' m ]))
              (ledger q)
              (ledger q')
      next none h e k = ground (arith, e)
      next (some m) h e k = (ledger m, h, k m q' e)
