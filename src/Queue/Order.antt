-- ===== src/Queue/Order.antt =====
-- pkg/queue/queue.go with one worker: the order of the events.
use mathlib.Core.List.{append_assoc, append-nil}
use cee_exporter.Common.{
  if-both, ℕ, zero, suc, ◌≡◌, refl, ◌∙◌, Bool, true, false, some, List, [], ◌∷◌, ◌++◌, arith,
  if◌then◌else◌, get_elem?, set, pos,
}
use cee_exporter.Metrics.{Store}
use cee_exporter.Queue.Conservation.{held_by, held_by-appended}
use cee_exporter.Queue.Induction.{After, After-if, Rules, Rules-run}
use cee_exporter.Queue.{
  Config, Worker, idle, filling, ready, writing, finished, Queue, Action, start, enqueue, appended,
  receive_from, fire, write_begin, write_end, stop, stop_wait, drop_payload, Phase, draining, grace,
  reported, closing, all_finished, run,
}

module _ {E : Type 0} where
  -- The events that the writer was given, in the order of the calls.
  abbrev pub delivered : List (List E × Bool) → List E
  delivered [] = []
  delivered ((b, ok) ∷ cs) = b ++ delivered cs

  delivered-snoc :
      (cs : List (List E × Bool)) (b : List E) (ok : Bool)
      → delivered (cs ++ (b, ok) ∷ []) ≡ delivered cs ++ b
  delivered-snoc [] b ok = append-nil b
  delivered-snoc ((x, o) ∷ cs) b ok = simp (delivered-snoc cs b ok, append_assoc)

  pub record IsFifo (q : Queue E) : Type 0 where
    pub worker : Worker E
    pub only : q.workers ≡ worker ∷ []
    pub order : q.accepted ≡ delivered q.calls ++ (held_by worker ++ q.ch)

  only_worker :
      (ws : List (Worker E)) (v w : Worker E) (i : ℕ)
      → ws ≡ v ∷ []
      → get_elem? ws i ≡ some w
      → (i ≡ 0) × (v ≡ w)
  only_worker ws v w zero e g = ground arith
  only_worker ws v w (suc i) e g = absurd (ground arith)

  -- Where the worker stands at the move.
  at_worker :
      (i : ℕ) (w : Worker E) (q : Queue E) (h : IsFifo q)
      → get_elem? q.workers i ≡ some w
      → (i ≡ 0) × (h.worker ≡ w)
  at_worker i w q h g = only_worker q.workers h.worker w i h.only g

  -- The worker takes the head of the channel into its batch `b`.
  taken-IsFifo :
      (i : ℕ) (w : Worker E) (e : E) (rest : List E) (q : Queue E)
      → q.ch ≡ e ∷ rest
      → get_elem? q.workers i ≡ some w
      → IsFifo q
      → IsFifo (record q {
        ch = rest;
        workers = set q.workers i (appended q.max_batch (held_by w ++ e ∷ []));
      })
  taken-IsFifo i w e rest q c g h =
      let (z, same) = at_worker i w q h g in
      record {
        worker = appended q.max_batch (held_by w ++ e ∷ []);
        only = rw (h.only, z) refl;
        order =
            h.order
            ∙ rw
                (
                  same,
                  c,
                  held_by-appended q.max_batch (held_by w ++ e ∷ []),
                  append_assoc (held_by w),
                )
                refl;
      }

  -- The worker moves with its batch.
  moved-IsFifo :
      (i : ℕ) (w w' : Worker E) (q : Queue E)
      → get_elem? q.workers i ≡ some w
      → held_by w' ≡ held_by w
      → IsFifo q
      → IsFifo (record q { workers = set q.workers i w' })
  moved-IsFifo i w w' q g k h =
      let (z, same) = at_worker i w q h g in
      record { worker = w'; only = rw (h.only, z) refl; order = h.order ∙ rw (same, k) refl }

  enqueue-IsFifo : (e : E) (q : Queue E) → IsFifo q → IsFifo (enqueue e q).0
  unfolding enqueue
  enqueue-IsFifo e q h = record {
    worker = h.worker;
    only = ground (arith, h.only);
    order = ground (
      arith,
      h.order,
      append_assoc (held_by h.worker) q.ch (e ∷ []),
      append_assoc (delivered q.calls) (held_by h.worker ++ q.ch) (e ∷ []),
    );
  }

  receive_from-IsFifo :
      (i : ℕ) (w : Worker E) (ch : List E) (q : Queue E)
      → q.ch ≡ ch
      → get_elem? q.workers i ≡ some w
      → IsFifo q
      → After IsFifo (receive_from i w ch q)
  unfolding receive_from
  receive_from-IsFifo i idle (e ∷ rest) q c g h = taken-IsFifo i idle e rest q c g h
  receive_from-IsFifo i idle [] q c g h =
      After-if IsFifo q.closed _ (λ y. moved-IsFifo i idle finished q g refl h)
  receive_from-IsFifo i (filling b) (e ∷ rest) q c g h = taken-IsFifo i (filling b) e rest q c g h
  receive_from-IsFifo i (filling b) [] q c g h =
      After-if IsFifo q.closed _ (λ y. moved-IsFifo i (filling b) (ready b false) q g refl h)
  receive_from-IsFifo i _ ch q c g h = tt

  fire-IsFifo :
      (i : ℕ) (w : Worker E) (q : Queue E)
      → get_elem? q.workers i ≡ some w
      → IsFifo q
      → After IsFifo (fire i w q)
  unfolding fire
  fire-IsFifo i (filling b) q g h = moved-IsFifo i (filling b) (ready b true) q g refl h
  fire-IsFifo i _ q g h = tt

  write_begin-IsFifo :
      (i : ℕ) (w : Worker E) (q : Queue E)
      → get_elem? q.workers i ≡ some w
      → IsFifo q
      → After IsFifo (write_begin i w q)
  unfolding write_begin
  write_begin-IsFifo i (ready b more) q g h =
      let m = moved-IsFifo i (ready b more) (writing b more) q g refl h in
      record { worker = m.worker; only = m.only; order = m.order }
  write_begin-IsFifo i _ q g h = tt

  write_end-IsFifo :
      (i : ℕ) (ok : Bool) (now : ℕ) (w : Worker E) (q : Queue E)
      → get_elem? q.workers i ≡ some w
      → IsFifo q
      → After IsFifo (write_end i ok now w q)
  unfolding write_end
  write_end-IsFifo i ok now (writing b more) q g h =
      let (z, same) = at_worker i (writing b more) q h g in
      let w' : Worker E = if more then idle else finished in
      record {
        worker = w';
        only = rw (h.only, z) refl;
        order =
            h.order
            ∙ rw
                (
                  same,
                  delivered-snoc q.calls b ok,
                  none_held more,
                  append_assoc (delivered q.calls),
                )
                refl;
      }
    where
      none_held :
          (more : Bool) → (let w : Worker E = if more then idle else finished in held_by w) ≡ []
      none_held true = refl
      none_held false = refl
  write_end-IsFifo i ok now _ q g h = tt

  stop-IsFifo : (q : Queue E) → IsFifo q → IsFifo (stop q)
  unfolding stop
  stop-IsFifo q h = record {
    worker = h.worker;
    only = ground (arith, h.only);
    order = ground (arith, h.order);
  }

  stop_wait-IsFifo :
      (timer : Bool) (ph : Phase) (q : Queue E)
      → q.phase ≡ ph
      → IsFifo q
      → After IsFifo (stop_wait timer ph q)
  unfolding stop_wait
  stop_wait-IsFifo true draining q e h = record {
    worker = h.worker;
    only = h.only;
    order = h.order;
  }
  stop_wait-IsFifo true grace q e h = record { worker = h.worker; only = h.only; order = h.order }
  stop_wait-IsFifo false draining q e h = After-if IsFifo _ _ (λ y.
      if-both IsFifo (all_finished q) _ _
        (record { worker = h.worker; only = h.only; order = h.order })
        (record { worker = h.worker; only = h.only; order = h.order }))
  stop_wait-IsFifo false grace q e h =
      After-if IsFifo _ _ (λ y. record { worker = h.worker; only = h.only; order = h.order })
  stop_wait-IsFifo false reported q e h =
      if-both IsFifo (all_finished q) _ _
        (record { worker = h.worker; only = h.only; order = h.order })
        (record { worker = h.worker; only = h.only; order = h.order })
  stop_wait-IsFifo false closing q e h = record {
    worker = h.worker;
    only = h.only;
    order = h.order;
  }
  stop_wait-IsFifo timer _ q e h = tt

  drop_payload-IsFifo : (q : Queue E) → IsFifo q → IsFifo (drop_payload q)
  unfolding drop_payload
  drop_payload-IsFifo q h = record { worker = h.worker; only = h.only; order = h.order }

  IsFifo-Rules : Rules IsFifo
  IsFifo-Rules = record {
    at_enqueue = enqueue-IsFifo;
    at_receive = receive_from-IsFifo;
    at_fire = fire-IsFifo;
    at_begin = write_begin-IsFifo;
    at_end = write_end-IsFifo;
    at_stop = stop-IsFifo;
    at_wait = stop_wait-IsFifo;
    at_drop = drop_payload-IsFifo;
  }

  start-IsFifo : (c : Config) (m : Store) → c.workers ≡ pos 1 → IsFifo (start {E = E} c m)
  unfolding start
  start-IsFifo c m e = record { worker = idle; only = rw e refl; order = refl }

  -- With one worker the writer is given the accepted events in the order of acceptance, without a
  -- gap: what the calls delivered, then the worker's batch, then the channel, is what was accepted.
  pub run-IsFifo :
      (c : Config) (m : Store) (as' : List (Action E)) (q : Queue E)
      → c.workers ≡ pos 1
      → run as' (start c m) ≡ some q
      → (w : Worker E) × (q.workers ≡ w ∷ [])
        × (q.accepted ≡ delivered q.calls ++ (held_by w ++ q.ch))
  run-IsFifo c m as' q one e =
      let h = Rules-run IsFifo IsFifo-Rules as' _ q e (start-IsFifo c m one) in
      (h.worker, h.only, h.order)
