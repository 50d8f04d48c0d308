-- ===== src/Serving/Progress.antt =====
-- The requests of a process do not block one another for good.
use cee_exporter.Common.{
  ℕ, zero, suc, ◌+◌, ◌<◌, ◌≡◌, refl, ◌∙◌, ◌⊎◌, inl, inr, Bool, true, false, Option, none, some,
  List, [], ◌∷◌, arith, Bytes, get_elem?, set, total, every, ltb, Bool-cases, ℤ, pos, negsuc,
}
use cee_exporter.Metrics.{Store}
use cee_exporter.Queue.{Config}
use cee_exporter.Mapper.{WindowsEvent}
use cee_exporter.Server.{LimitsConfig, limits_with_defaults, natural, or_eight}
use cee_exporter.Server.Dispatch.{Platform}
use cee_exporter.Serving.{
  Handling, parked, working, answered, Move, acquires, offers, returns, Process, acquire,
  offer_next, finish_request, begin, is_answered, is_ended, at_handling, move, step, run,
}
use cee_exporter.Serving.Requests.{slots_of, reached}

-- A request in flight that is not waiting for a slot, or else one that is while no slot is held.
abbrev Movable : List Handling → Type 0
Movable ws =
    ((i : ℕ) × (holds : Bool) × (es : List WindowsEvent) × (get_elem? ws i
        ≡ some (working holds es)))
    ⊎ ((i : ℕ) × (es : List WindowsEvent) × (get_elem? ws i ≡ some (parked es))
        × (total slots_of ws ≡ 0))

-- A request of a longer list.
Movable-cons : (w : Handling) (ws : List Handling) → slots_of w ≡ 0 → Movable ws → Movable (w ∷ ws)
Movable-cons w ws z (inl (i, b, es, g)) = inl (suc i, b, es, g)
Movable-cons w ws z (inr (i, es, g, n)) = inr (suc i, es, g, omega (arith, z, n))

all_answered-slots : (ws : List Handling) → every is_answered ws ≡ true → total slots_of ws ≡ 0
all_answered-slots [] h = refl
all_answered-slots (answered ∷ ws) h = omega (arith, all_answered-slots ws h)
all_answered-slots (parked es ∷ ws) h = absurd (ground arith)
all_answered-slots (working b es ∷ ws) h = absurd (ground arith)

movable : (ws : List Handling) → every is_answered ws ≡ false → Movable ws
movable [] h = absurd (ground arith)
movable (answered ∷ ws) h = Movable-cons answered ws refl (movable ws h)
movable (working b es ∷ ws) h = inl (0, b, es, refl)
movable (parked es ∷ ws) h = elim (Bool-cases (every is_answered ws)) [
  | inl a ↦ inr (0, es, refl, omega (arith, all_answered-slots ws a))
  | inr a ↦ Movable-cons (parked es) ws refl (movable ws a)
]

below : (a b : ℕ) → a < b → ltb a b ≡ true
below a b h = ground arith

limit_positive : (c : LimitsConfig) → 0 < natural (limits_with_defaults c).max_concurrent_requests
unfolding limits_with_defaults
limit_positive c = positive c.max_concurrent_requests
  where
    positive : (n : ℤ) → 0 < natural (or_eight n)
    positive (pos zero) = omega arith
    positive (pos (suc n)) = omega arith
    positive (negsuc n) = omega arith

pub at_handling-eq :
    (f : Handling → Option Process) (i : ℕ) (s : Process) {w : Handling}
    → get_elem? s.handlings i ≡ some w
    → at_handling f i s ≡ f w
at_handling-eq f i s g = λ j. elim (g j) [ none ↦ none | some w ↦ f w ]

module _ (p : Platform) (limits : LimitsConfig) (hostname : Bytes) where
  -- Some request has a move: it takes a free slot, enqueues its next event or returns.
  abbrev pub HasMove : Process → Type 0
  HasMove s =
      (i : ℕ) × (s' : Process) × ((step p limits hostname (acquires i) s ≡ some s')
        ⊎ (step p limits hostname (offers i) s ≡ some s')
        ⊎ (step p limits hostname (returns i) s ≡ some s'))

  working-HasMove :
      (s : Process) (i : ℕ) (holds : Bool) (es : List WindowsEvent)
      → is_ended s.stage ≡ false
      → get_elem? s.handlings i ≡ some (working holds es)
      → HasMove s
  unfolding step move offer_next finish_request
  working-HasMove s i holds [] n g =
      let e : step p limits hostname (returns i) s ≡ finish_request i s (working holds []) =
        rw n (at_handling-eq (finish_request i s) i s g) in
      (i, _, inr (inr e))
  working-HasMove s i holds (x ∷ es) n g =
      let e : step p limits hostname (offers i) s ≡ offer_next i s (working holds (x ∷ es)) =
        rw n (at_handling-eq (offer_next i s) i s g) in
      (i, _, inr (inl e))

  parked-HasMove :
      (s : Process) (i : ℕ) (es : List WindowsEvent)
      → is_ended s.stage ≡ false
      → get_elem? s.handlings i ≡ some (parked es)
      → ltb s.slots s.limit ≡ true
      → HasMove s
  unfolding step move acquire
  parked-HasMove s i es n g f =
      let taken : Process = record s {
        handlings = set s.handlings i (working true es);
        slots = s.slots + 1;
      } in
      let room : acquire i s (parked es) ≡ some taken = rw f refl in
      let e : step p limits hostname (acquires i) s ≡ some taken =
        rw n (at_handling-eq (acquire i s) i s g ∙ room) in
      (i, taken, inl e)

  -- As long as a request is in flight and the process has not ended, the goroutine of some request
  -- can go on: the slots and the queue never block all of them at once, however the process came to
  -- where it is.
  pub request_progress :
      (c : Config) (m : Store) (ms : List Move) (s : Process)
      → run p limits hostname ms (begin p limits hostname c m) ≡ some s
      → is_ended s.stage ≡ false
      → every is_answered s.handlings ≡ false
      → HasMove s
  request_progress c m ms s e n a =
      let k = reached p limits hostname c m ms s e (λ x. true) in
      elim (movable s.handlings a) [
        | inl (i, b, es, g) ↦ working-HasMove s i b es n g
        | inr (i, es, g, z) ↦
            parked-HasMove s i es n g
              (below s.slots s.limit (omega (arith, k.held, k.limited, limit_positive limits)))
      ]
