-- ===== src/Queue/Induction.antt =====
-- Induction over the schedules of pkg/queue/queue.go.
use cee_exporter.Common.{
  ℕ, ◌≡◌, refl, Option, none, some, List, [], ◌∷◌, get_elem?, Bool, true, false, if◌then◌else◌,
}
use cee_exporter.Queue.{
  Worker, Queue, Action, enqueues, receives, fires, begins, ends, stops, waits, drops, enqueue,
  drop_payload, receive_from, fire, write_begin, write_end, stop, stop_wait, Phase, step, run,
}

-- `P` holds after a move, if the move is open.
abbrev pub After {ℓ κ} : {E : Type ℓ} → (Queue E → Type κ) → Option (Queue E) → Type κ
After P none = Unit
After P (some q) = P q

-- A guarded move.
pub After-if {ℓ κ} :
    {E : Type ℓ} (P : Queue E → Type κ) (b : Bool) (q : Queue E)
    → (b ≡ true → P q)
    → After P (if b then some q else none)
After-if P true q h = h refl
After-if P false q h = tt

-- What every step keeps, every schedule keeps.
pub run_induction {ℓ κ} :
    {E : Type ℓ} (P : Queue E → Type κ)
    → ((a : Action E) (q : Queue E) → P q → After P (step a q))
    → (as' : List (Action E)) (q : Queue E) → P q
    → After P (run as' q)
unfolding run
run_induction P keep [] q h = h
run_induction {E} P keep (a ∷ as') q h = next (step a q) (keep a q h) (run_induction P keep as')
  where
    next :
        (o : Option (Queue E))
        → After P o
        → ((q : Queue E) → P q → After P (run as' q))
        → After P (elim o [ none ↦ none | some q' ↦ run as' q' ])
    next none h k = tt
    next (some q') h k = k q' h

-- A property with one rule for each move is kept by every step.
pub record Rules {ℓ κ} {E : Type ℓ} (P : Queue E → Type κ) : Type (ℓ ⊔ κ) where
  pub at_enqueue : (e : E) (q : Queue E) → P q → P (enqueue e q).0
  pub at_receive :
      (i : ℕ) (w : Worker E) (ch : List E) (q : Queue E)
      → q.ch ≡ ch
      → get_elem? q.workers i ≡ some w
      → P q
      → After P (receive_from i w ch q)
  pub at_fire :
      (i : ℕ) (w : Worker E) (q : Queue E)
      → get_elem? q.workers i ≡ some w
      → P q
      → After P (fire i w q)
  pub at_begin :
      (i : ℕ) (w : Worker E) (q : Queue E)
      → get_elem? q.workers i ≡ some w
      → P q
      → After P (write_begin i w q)
  pub at_end :
      (i : ℕ) (ok : Bool) (now : ℕ) (w : Worker E) (q : Queue E)
      → get_elem? q.workers i ≡ some w
      → P q
      → After P (write_end i ok now w q)
  pub at_stop : (q : Queue E) → P q → P (stop q)
  pub at_wait :
      (timer : Bool) (ph : Phase) (q : Queue E)
      → q.phase ≡ ph
      → P q
      → After P (stop_wait timer ph q)
  pub at_drop : (q : Queue E) → P q → P (drop_payload q)

module _ {ℓ κ} {E : Type ℓ} (P : Queue E → Type κ) where
  pub at_worker-After :
      (f : Worker E → Queue E → Option (Queue E)) (q : Queue E) (o : Option (Worker E))
      → ((w : Worker E) → o ≡ some w → After P (f w q))
      → After P (elim o [ none ↦ none | some w ↦ f w q ])
  at_worker-After f q none h = tt
  at_worker-After f q (some w) h = h w refl

  pub Rules-step : Rules P → (a : Action E) (q : Queue E) → P q → After P (step a q)
  unfolding step
  Rules-step r (enqueues e) q h = r.at_enqueue e q h
  Rules-step r (receives i) q h =
      at_worker-After (λ w q. receive_from i w q.ch q) q (get_elem? q.workers i)
        (λ w g. r.at_receive i w q.ch q refl g h)
  Rules-step r (fires i) q h =
      at_worker-After (fire i) q (get_elem? q.workers i) (λ w g. r.at_fire i w q g h)
  Rules-step r (begins i) q h =
      at_worker-After (write_begin i) q (get_elem? q.workers i) (λ w g. r.at_begin i w q g h)
  Rules-step r (ends i ok now) q h =
      at_worker-After (write_end i ok now) q (get_elem? q.workers i)
        (λ w g. r.at_end i ok now w q g h)
  Rules-step r stops q h = r.at_stop q h
  Rules-step r (waits timer) q h = r.at_wait timer q.phase q refl h
  Rules-step r drops q h = r.at_drop q h

  -- What the rules keep holds after every schedule.
  pub Rules-run :
      Rules P → (as' : List (Action E)) (q q' : Queue E) → run as' q ≡ some q' → P q → P q'
  Rules-run r as' q q' e h = rw e at (run_induction P (Rules-step r) as' q h)
