-- ===== src/Queue/Conservation.antt =====
-- pkg/queue/queue.go: no accepted event is lost or duplicated between `Enqueue` and the writer.
use cee_exporter.Common.{
  ℕ, ◌+◌, ◌≡◌, Bool, true, false, some, List, [], ◌∷◌, ◌++◌, arith, if◌then◌else◌, get_elem?, total,
  count, count-append, total-set, total-replicate,
}
use cee_exporter.Metrics.{Store}
use cee_exporter.Queue.Induction.{After, Rules, Rules-run}
use cee_exporter.Queue.{
  Config, Worker, idle, filling, ready, writing, finished, Queue, Action, start, enqueue, appended,
  receive_from, fire, write_begin, write_end, stop, stop_wait, drop_payload, Phase, run,
}

pub total-snoc {ℓ} :
    {A : Type ℓ} (f : A → ℕ) (xs : List A) (x : A) → total f (xs ++ x ∷ []) ≡ total f xs + f x
total-snoc f [] x = omega arith
total-snoc f (y ∷ xs) x = omega (arith, total-snoc f xs x)

module _ {ℓ} {E : Type ℓ} where
  -- The events that a worker holds.
  abbrev pub held_by : Worker E → List E
  held_by idle = []
  held_by (filling b) = b
  held_by (ready b more) = b
  held_by (writing b more) = b
  held_by finished = []

  abbrev pub held : (E → Bool) → Queue E → ℕ
  held p q = total (λ w. count p (held_by w)) q.workers

  abbrev pub handed : (E → Bool) → Queue E → ℕ
  handed p q = total (λ (c : List E × Bool). count p c.0) q.calls

  -- The events that pass `p` among those that were accepted are those in the channel, those that
  -- a worker holds and those that a completed writer's call was given.
  abbrev pub IsBalanced : (E → Bool) → Queue E → Type 0
  IsBalanced p q = count p q.accepted ≡ count p q.ch + held p q + handed p q

  enqueue-IsBalanced :
      (p : E → Bool) (e : E) (q : Queue E) → IsBalanced p q → IsBalanced p (enqueue e q).0
  unfolding enqueue
  enqueue-IsBalanced p e q h =
      ground (arith, count-append p q.ch (e ∷ []), count-append p q.accepted (e ∷ []))

  pub held_by-appended : (m : ℕ) (b : List E) → held_by (appended m b) ≡ b
  held_by-appended m b = ground arith

  module _ (p : E → Bool) where
    abbrev weight : Worker E → ℕ
    weight w = count p (held_by w)

    receive_from-IsBalanced :
        (i : ℕ) (w : Worker E) (ch : List E) (q : Queue E)
        → q.ch ≡ ch
        → get_elem? q.workers i ≡ some w
        → IsBalanced p q
        → After (IsBalanced p) (receive_from i w ch q)
    unfolding receive_from
    receive_from-IsBalanced i idle (e ∷ rest) q c g h =
        let w' = appended q.max_batch (e ∷ []) in
        ground (arith, total-set weight q.workers i idle w', held_by-appended q.max_batch (e ∷ []))
    receive_from-IsBalanced i idle [] q c g h =
        ground (arith, total-set weight q.workers i idle finished)
    receive_from-IsBalanced i (filling b) (e ∷ rest) q c g h =
        let w' = appended q.max_batch (b ++ e ∷ []) in
        ground (
          arith,
          total-set weight q.workers i (filling b) w',
          held_by-appended q.max_batch (b ++ e ∷ []),
          count-append p b (e ∷ []),
        )
    receive_from-IsBalanced i (filling b) [] q c g h =
        ground (arith, total-set weight q.workers i (filling b) (ready b false))
    receive_from-IsBalanced i _ ch q c g h = tt

    fire-IsBalanced :
        (i : ℕ) (w : Worker E) (q : Queue E)
        → get_elem? q.workers i ≡ some w
        → IsBalanced p q
        → After (IsBalanced p) (fire i w q)
    unfolding fire
    fire-IsBalanced i (filling b) q g h =
        ground (arith, total-set weight q.workers i (filling b) (ready b true))
    fire-IsBalanced i _ q g h = tt

    write_begin-IsBalanced :
        (i : ℕ) (w : Worker E) (q : Queue E)
        → get_elem? q.workers i ≡ some w
        → IsBalanced p q
        → After (IsBalanced p) (write_begin i w q)
    unfolding write_begin
    write_begin-IsBalanced i (ready b more) q g h =
        ground (arith, total-set weight q.workers i (ready b more) (writing b more))
    write_begin-IsBalanced i _ q g h = tt

    write_end-IsBalanced :
        (i : ℕ) (ok : Bool) (now : ℕ) (w : Worker E) (q : Queue E)
        → get_elem? q.workers i ≡ some w
        → IsBalanced p q
        → After (IsBalanced p) (write_end i ok now w q)
    unfolding write_end
    write_end-IsBalanced i ok now (writing b more) q g h =
        let w' : Worker E = if more then idle else finished in
        ground (
          arith,
          total-set weight q.workers i (writing b more) w',
          total-snoc (λ (c : List E × Bool). count p c.0) q.calls (b, ok),
        )
    write_end-IsBalanced i ok now _ q g h = tt

    stop_wait-IsBalanced :
        (timer : Bool) (ph : Phase) (q : Queue E)
        → q.phase ≡ ph
        → IsBalanced p q
        → After (IsBalanced p) (stop_wait timer ph q)
    unfolding stop_wait
    stop_wait-IsBalanced timer ph q e h = ground arith

    stop-IsBalanced : (q : Queue E) → IsBalanced p q → IsBalanced p (stop q)
    unfolding stop
    stop-IsBalanced q h = ground arith

    drop_payload-IsBalanced : (q : Queue E) → IsBalanced p q → IsBalanced p (drop_payload q)
    unfolding drop_payload
    drop_payload-IsBalanced q h = ground arith

    IsBalanced-Rules : Rules (IsBalanced p)
    IsBalanced-Rules = record {
      at_enqueue = enqueue-IsBalanced p;
      at_receive = receive_from-IsBalanced;
      at_fire = fire-IsBalanced;
      at_begin = write_begin-IsBalanced;
      at_end = write_end-IsBalanced;
      at_stop = stop-IsBalanced;
      at_wait = stop_wait-IsBalanced;
      at_drop = drop_payload-IsBalanced;
    }

    start-IsBalanced : (c : Config) (m : Store) → IsBalanced p (start {E = E} c m)
    unfolding start
    start-IsBalanced c m = omega (arith, total-replicate weight _ idle)

  -- From the start, whatever the handlers, the workers, the timers, the writer and `Stop` do in
  -- whatever order, an accepted event is in the channel, in a worker's batch or in a batch that a
  -- completed `WriteBatch` was given, as often as it was accepted: for every test `p` on events.
  pub run-IsBalanced :
      (c : Config) (m : Store) (as' : List (Action E)) (q : Queue E)
      → run as' (start c m) ≡ some q
      → (p : E → Bool) → count p q.accepted ≡ count p q.ch + held p q + handed p q
  run-IsBalanced c m as' q e p =
      Rules-run (IsBalanced p) (IsBalanced-Rules p) as' _ q e (start-IsBalanced p c m)
