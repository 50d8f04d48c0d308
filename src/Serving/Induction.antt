-- ===== src/Serving/Induction.antt =====
-- Induction over the schedules of a process.
use cee_exporter.Common.{
  ℕ, ◌≡◌, Bool, true, false, Option, none, some, List, [], ◌∷◌, get_elem?, if◌then◌else◌, refl,
  arith, if-both, Bytes,
}
use cee_exporter.Queue.{Action, Phase}
use cee_exporter.Server.{LimitsConfig, Request}
use cee_exporter.Server.Dispatch.{Platform}
use cee_exporter.Serving.{
  Handling, Stage, Move, arrives, acquires, offers, returns, signals, shuts, closes, queues,
  finishes, fails, fail_listener, Process, acquire, offer_next, finish_request, shutdown,
  close_queue, end_run, move_queue, signal, arrive, is_ended, move, step, run,
}
use mathlib.Core.Path.{subst}
use mathlib.Core.Option.{some-injective}
use cee_exporter.Mapper.{WindowsEvent}

-- `P` holds after a move, if the move is open.
abbrev pub After {κ} : (Process → Type κ) → Option Process → Type κ
After P none = Unit
After P (some s) = P s

pub After-if {κ} :
    (P : Process → Type κ) (b : Bool) (s : Process)
    → (b ≡ true → P s)
    → After P (if b then some s else none)
After-if P true s h = h refl
After-if P false s h = tt

module _ {κ} (p : Platform) (limits : LimitsConfig) (hostname : Bytes) (P : Process → Type κ) where
  -- One rule for each move.
  pub record Rules : Type κ where
    pub at_arrive : (r : Request) (s : Process) → P s → After P (arrive p limits hostname r s)
    pub at_acquire :
        (i : ℕ) (s : Process) (w : Handling)
        → get_elem? s.handlings i ≡ some w
        → P s
        → After P (acquire i s w)
    pub at_offer :
        (i : ℕ) (s : Process) (w : Handling)
        → get_elem? s.handlings i ≡ some w
        → P s
        → After P (offer_next i s w)
    pub at_return :
        (i : ℕ) (s : Process) (w : Handling)
        → get_elem? s.handlings i ≡ some w
        → P s
        → After P (finish_request i s w)
    pub at_signal : (t : Stage) (s : Process) → s.stage ≡ t → P s → After P (signal t s)
    pub at_shutdown :
        (expired : Bool) (t : Stage) (s : Process)
        → s.stage ≡ t
        → P s
        → After P (shutdown expired t s)
    pub at_close : (t : Stage) (s : Process) → s.stage ≡ t → P s → After P (close_queue t s)
    pub at_queue : (a : Action WindowsEvent) (s : Process) → P s → After P (move_queue a s)
    pub at_end :
        (t : Stage) (ph : Phase) (s : Process) → s.stage ≡ t → P s → After P (end_run t ph s)
    pub at_fail : (t : Stage) (s : Process) → s.stage ≡ t → P s → After P (fail_listener t s)

  at_handling-After :
      (f : Handling → Option Process) (o : Option Handling)
      → ((w : Handling) → o ≡ some w → After P (f w))
      → After P (elim o [ none ↦ none | some w ↦ f w ])
  at_handling-After f none h = tt
  at_handling-After f (some w) h = h w refl

  move-Rules : Rules → (m : Move) (s : Process) → P s → After P (move p limits hostname m s)
  unfolding move
  move-Rules k (arrives r) s h = k.at_arrive r s h
  move-Rules k (acquires i) s h =
      at_handling-After (acquire i s) (get_elem? s.handlings i) (λ w g. k.at_acquire i s w g h)
  move-Rules k (offers i) s h =
      at_handling-After (offer_next i s) (get_elem? s.handlings i) (λ w g. k.at_offer i s w g h)
  move-Rules k (returns i) s h =
      at_handling-After (finish_request i s) (get_elem? s.handlings i)
        (λ w g. k.at_return i s w g h)
  move-Rules k signals s h = k.at_signal s.stage s refl h
  move-Rules k (shuts expired) s h = k.at_shutdown expired s.stage s refl h
  move-Rules k closes s h = k.at_close s.stage s refl h
  move-Rules k (queues a) s h = k.at_queue a s h
  move-Rules k finishes s h = k.at_end s.stage s.queue.phase s refl h
  move-Rules k fails s h = k.at_fail s.stage s refl h

  pub step-Rules : Rules → (m : Move) (s : Process) → P s → After P (step p limits hostname m s)
  unfolding step
  step-Rules k m s h =
      if-both (After P) (is_ended s.stage) none (move p limits hostname m s) tt (move-Rules k m s h)

  -- What the rules keep holds after every schedule.
  pub Rules-run :
      Rules → (ms : List Move) (s s' : Process) → run p limits hostname ms s ≡ some s' → P s → P s'
  unfolding run
  Rules-run k [] s s' e h = subst P (some-injective _ _ e) h
  Rules-run k (m ∷ ms) s s' e h =
      next (step p limits hostname m s) (step-Rules k m s h) e (Rules-run k ms)
    where
      next :
          (o : Option Process)
          → After P o
          → (elim o [ none ↦ none | some t ↦ run p limits hostname ms t ]) ≡ some s'
          → ((t u : Process) → run p limits hostname ms t ≡ some u → P t → P u)
          → P s'
      next none h e k = ground (arith, e)
      next (some t) h e k = k t s' e h
