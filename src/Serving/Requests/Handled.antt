-- ===== src/Serving/Requests/Handled.antt =====
-- The moves of one request keep the account of events and slots.
use cee_exporter.Common.{
  ℕ, ◌+◌, ◌≤◌, ◌≡◌, Bool, true, some, List, [], ◌∷◌, arith, if◌then◌else◌, get_elem?, total, count,
  count-append, total-set, ltb,
}
use cee_exporter.Queue.{Queue, enqueue}
use cee_exporter.Mapper.{WindowsEvent}
use cee_exporter.Serving.Induction.{After, After-if}
use cee_exporter.Serving.{
  Handling, parked, working, answered, Process, acquire, offer_next, finish_request,
}

abbrev pub remaining : Handling → List WindowsEvent
remaining (parked es) = es
remaining (working holds es) = es
remaining answered = []

abbrev pub slots_of : Handling → ℕ
slots_of (working holds es) = if holds then 1 else 0
slots_of _ = 0

-- An event that has arrived is still to be enqueued, was accepted or was refused; the slots are
-- those that the requests hold, and within the limit.
pub record IsSound (t : WindowsEvent → Bool) (limit : ℕ) (s : Process) : Type 0 where
  pub accounted :
      count t s.arrived
      ≡ total (λ w. count t (remaining w)) s.handlings
        + count t s.queue.accepted
        + count t s.queue.refused
  pub held : s.slots ≡ total slots_of s.handlings
  pub within : s.slots ≤ limit
  pub limited : s.limit ≡ limit

module _ (t : WindowsEvent → Bool) (limit : ℕ) where
  abbrev Sound : Process → Type 0
  Sound = IsSound t limit

  abbrev weight : Handling → ℕ
  weight w = count t (remaining w)

  pub acquire-IsSound :
      (i : ℕ) (s : Process) (w : Handling)
      → get_elem? s.handlings i ≡ some w
      → Sound s
      → After Sound (acquire i s w)
  unfolding acquire
  acquire-IsSound i s (parked es) g h = After-if Sound (ltb s.slots s.limit) _ (λ b. record {
    accounted =
        omega (arith, h.accounted, total-set weight s.handlings i (parked es) (working true es) g);
    held = omega (arith, h.held, total-set slots_of s.handlings i (parked es) (working true es) g);
    within = ground (arith, h.limited);
    limited = h.limited;
  })
  acquire-IsSound i s (working b es) g h = tt
  acquire-IsSound i s answered g h = tt

  enqueue-counted :
      (e : WindowsEvent) (q : Queue WindowsEvent)
      → count t (enqueue e q).0.accepted + count t (enqueue e q).0.refused
        ≡ count t q.accepted + count t q.refused + (if t e then 1 else 0)
  unfolding enqueue
  enqueue-counted e q =
      ground (arith, count-append t q.accepted (e ∷ []), count-append t q.refused (e ∷ []))

  pub offer_next-IsSound :
      (i : ℕ) (s : Process) (w : Handling)
      → get_elem? s.handlings i ≡ some w
      → Sound s
      → After Sound (offer_next i s w)
  unfolding offer_next
  offer_next-IsSound i s (working b (e ∷ es)) g h = record {
    accounted = omega (
      arith,
      h.accounted,
      enqueue-counted e s.queue,
      total-set weight s.handlings i (working b (e ∷ es)) (working b es) g,
    );
    held =
        omega
          (arith, h.held, total-set slots_of s.handlings i (working b (e ∷ es)) (working b es) g);
    within = h.within;
    limited = h.limited;
  }
  offer_next-IsSound i s (working b []) g h = tt
  offer_next-IsSound i s (parked es) g h = tt
  offer_next-IsSound i s answered g h = tt

  pub finish_request-IsSound :
      (i : ℕ) (s : Process) (w : Handling)
      → get_elem? s.handlings i ≡ some w
      → Sound s
      → After Sound (finish_request i s w)
  unfolding finish_request
  finish_request-IsSound i s (working b []) g h = record {
    accounted =
        omega (arith, h.accounted, total-set weight s.handlings i (working b []) answered g);
    held = ground (arith, h.held, total-set slots_of s.handlings i (working b []) answered g);
    within = ground (arith, h.within);
    limited = h.limited;
  }
  finish_request-IsSound i s (working b (e ∷ es)) g h = tt
  finish_request-IsSound i s (parked es) g h = tt
  finish_request-IsSound i s answered g h = tt
