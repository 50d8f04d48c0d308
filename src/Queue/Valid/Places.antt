-- ===== src/Queue/Valid/Places.antt =====
-- The places of the workers, and what holds of the queue between two steps.
use cee_exporter.Common.{
  ap, ltb, Bool-cases, ℕ, ◌≤◌, ◌<◌, ◌≡◌, Bool, true, false, some, List, [], ◌∷◌, arith, inl, inr,
  length, get_elem?, set, total, total-set, length-set, All, All-set, All-get, All-map,
}
use cee_exporter.Queue.{Worker, idle, filling, ready, writing, finished, Queue, appended, running}

module _ {E : Type 0} where
  -- Nothing more can come out of the channel.
  abbrev pub IsDrained : Queue E → Type 0
  IsDrained q = (q.closed ≡ true) × (q.ch ≡ [])

  abbrev pub IsBatch : ℕ → List E → Type 0
  IsBatch max b = (0 < length b) × (length b ≤ max)

  -- What a worker's place says: its batch is not empty and at most `max_batch` long, a begun batch
  -- has room, and `more` is false only when the channel is closed and empty.
  abbrev pub WorkerOk : ℕ → Type 0 → Worker E → Type 0
  WorkerOk max D idle = Unit
  WorkerOk max D (filling b) = (0 < length b) × (length b < max)
  WorkerOk max D (ready b more) = IsBatch max b × (more ≡ false → D)
  WorkerOk max D (writing b more) = IsBatch max b × (more ≡ false → D)
  WorkerOk max D finished = D

  -- The events inside a writer's call.
  abbrev pub in_call : Worker E → ℕ
  in_call (writing b more) = length b
  in_call _ = 0

  pub record IsValid (q : Queue E) : Type 0 where
    pub max_pos : 0 < q.max_batch
    pub workers_pos : 0 < length q.workers
    pub within : length q.ch ≤ q.capacity
    pub workers_ok : All (WorkerOk q.max_batch (IsDrained q)) q.workers
    pub in_flight_exact : q.in_flight ≡ total in_call q.workers
    pub calls_ok : All (λ (c : List E × Bool). IsBatch q.max_batch c.0) q.calls
    pub closed_phase : q.closed ≡ false → q.phase ≡ running
    pub phase_closed : q.phase ≡ running → q.closed ≡ false

  pub WorkerOk-mono :
      (max : ℕ) {D D' : Type 0} → (D → D') → (w : Worker E) → WorkerOk max D w → WorkerOk max D' w
  WorkerOk-mono max f idle h = tt
  WorkerOk-mono max f (filling b) h = h
  WorkerOk-mono max f (ready b more) h = (h.0, λ e. f (h.1 e))
  WorkerOk-mono max f (writing b more) h = (h.0, λ e. f (h.1 e))
  WorkerOk-mono max f finished h = f h

  appended-WorkerOk :
      (max : ℕ) (D : Type 0) (b : List E)
      → 0 < length b
      → length b ≤ max
      → WorkerOk max D (appended max b)
  appended-WorkerOk max D b h k = elim (Bool-cases (ltb (length b) max)) [
    | inl y ↦ rw y (h, ground arith)
    | inr n ↦ rw n ((h, k), λ e. cc)
  ]

  in_call-appended : (max : ℕ) (b : List E) → in_call (appended max b) ≡ 0
  in_call-appended max b = ground arith

  module _ (q : Queue E) (h : IsValid q) where
    pub at_place :
        (i : ℕ) (w : Worker E)
        → get_elem? q.workers i ≡ some w
        → WorkerOk q.max_batch (IsDrained q) w
    at_place i w g = All-get (WorkerOk q.max_batch (IsDrained q)) q.workers i w h.workers_ok g

    -- The other workers after worker `i` moves to `w` and the queue to a state that is drained if
    -- the old one was.
    pub moved :
        (i : ℕ) (w : Worker E) {D : Type 0}
        → (IsDrained q → D)
        → WorkerOk q.max_batch D w
        → All (WorkerOk q.max_batch D) (set q.workers i w)
    moved i w {D} f k =
        All-set (WorkerOk q.max_batch D) q.workers i w
          (All-map _ _ q.workers (WorkerOk-mono q.max_batch f) h.workers_ok) k

    -- One worker moves and holds as many events inside the writer as before.
    pub moved-IsValid :
        (i : ℕ) (w w' : Worker E)
        → get_elem? q.workers i ≡ some w
        → in_call w' ≡ in_call w
        → WorkerOk q.max_batch (IsDrained q) w'
        → IsValid (record q { workers = set q.workers i w' })
    moved-IsValid i w w' g e k = record {
      max_pos = h.max_pos;
      workers_pos = rw length-set h.workers_pos;
      within = h.within;
      workers_ok = moved i w' (λ d. d) k;
      in_flight_exact = omega (arith, total-set in_call q.workers i w w' g, h.in_flight_exact);
      calls_ok = h.calls_ok;
      closed_phase = h.closed_phase;
      phase_closed = h.phase_closed;
    }

    -- One worker takes the head of the channel.
    pub taken-IsValid :
        (i : ℕ) (w : Worker E) (b : List E) (e : E) (rest : List E)
        → get_elem? q.workers i ≡ some w
        → q.ch ≡ e ∷ rest
        → in_call w ≡ 0
        → 0 < length b
        → length b ≤ q.max_batch
        → IsValid (record q { ch = rest; workers = set q.workers i (appended q.max_batch b) })
    taken-IsValid i w b e rest g c z lo hi = record {
      max_pos = h.max_pos;
      workers_pos = rw length-set h.workers_pos;
      within = omega (arith, h.within, ap length c);
      workers_ok =
          moved i (appended q.max_batch b) (λ d. absurd (ground (arith, c, d.1)))
            (appended-WorkerOk q.max_batch _ b lo hi);
      in_flight_exact = omega (
        arith,
        total-set in_call q.workers i w (appended q.max_batch b) g,
        in_call-appended q.max_batch b,
        h.in_flight_exact,
      );
      calls_ok = h.calls_ok;
      closed_phase = h.closed_phase;
      phase_closed = h.phase_closed;
    }
