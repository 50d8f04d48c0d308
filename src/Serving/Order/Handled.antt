-- ===== src/Serving/Order/Handled.antt =====
-- The moves of one request keep the order of the shutdown.
use cee_exporter.Common.{
  ℕ, zero, suc, ◌≡◌, refl, sym, ap, ◌∙◌, inl, inr, Bool, true, false, some, List, [], ◌∷◌, arith,
  get_elem?, every, Bool-cases, ltb,
}
use cee_exporter.Queue.{Queue, enqueue}
use cee_exporter.Mapper.{WindowsEvent}
use cee_exporter.Serving.Induction.{After, After-if}
use cee_exporter.Serving.{
  Handling, parked, working, answered, Stage, stopping, ended, Process, acquire, offer_next,
  finish_request, is_answered,
}

abbrev pub is_stopping : Stage → Bool
is_stopping stopping = true
is_stopping ended = true
is_stopping _ = false

-- Once no connection is left, no request is in flight; the queue is closed by `q.Stop` only; and no
-- event meets a closed queue unless a request outlived httpServer.Shutdown.
pub record IsOrderly (s : Process) : Type 0 where
  pub calm : s.reachable ≡ false → every is_answered s.handlings ≡ true
  pub opened : s.queue.closed ≡ true → is_stopping s.stage ≡ true
  pub early : s.reachable ≡ false → s.late ≡ []
  pub on_time : s.queue.closed ≡ false → s.late ≡ []

every-get :
    (ws : List Handling) (i : ℕ) (w : Handling)
    → every is_answered ws ≡ true
    → get_elem? ws i ≡ some w
    → is_answered w ≡ true
every-get [] i w h g = ground arith
every-get (x ∷ ws) zero w h g = ground (arith, h, g)
every-get (answered ∷ ws) (suc i) w h g = every-get ws i w h g
every-get (parked es ∷ ws) (suc i) w h g = absurd (ground arith)
every-get (working b es ∷ ws) (suc i) w h g = absurd (ground arith)

-- A request in flight has a connection.
busy :
    (s : Process) (i : ℕ) (w : Handling)
    → IsOrderly s
    → get_elem? s.handlings i ≡ some w
    → is_answered w ≡ false
    → s.reachable ≡ true
busy s i w h g n = elim (Bool-cases s.reachable) [
  | inl e ↦ e
  | inr e ↦ absurd (ground (arith, every-get s.handlings i w (h.calm e) g, n))
]

-- A move of a request in flight, which leaves the queue open or closed as it was.
busy-IsOrderly :
    (s s' : Process)
    → s.reachable ≡ true
    → s'.reachable ≡ s.reachable
    → s'.stage ≡ s.stage
    → s'.queue.closed ≡ s.queue.closed
    → (s.queue.closed ≡ false → s'.late ≡ s.late)
    → IsOrderly s
    → IsOrderly s'
busy-IsOrderly s s' b r t c l h = record {
  calm = λ e. absurd (ground (arith, e, r, b));
  opened = λ e. ap is_stopping t ∙ h.opened (sym c ∙ e);
  early = λ e. absurd (ground (arith, e, r, b));
  on_time = λ e. l (sym c ∙ e) ∙ h.on_time (sym c ∙ e);
}

pub acquire-IsOrderly :
    (i : ℕ) (s : Process) (w : Handling)
    → get_elem? s.handlings i ≡ some w
    → IsOrderly s
    → After IsOrderly (acquire i s w)
unfolding acquire
acquire-IsOrderly i s (parked es) g h =
    After-if IsOrderly (ltb s.slots s.limit) _
      (λ b. busy-IsOrderly s _ (busy s i (parked es) h g refl) refl refl refl (λ e. refl) h)
acquire-IsOrderly i s (working b es) g h = tt
acquire-IsOrderly i s answered g h = tt

enqueue-closed : (e : WindowsEvent) (q : Queue WindowsEvent) → (enqueue e q).0.closed ≡ q.closed
unfolding enqueue
enqueue-closed e q = ground arith

pub offer_next-IsOrderly :
    (i : ℕ) (s : Process) (w : Handling)
    → get_elem? s.handlings i ≡ some w
    → IsOrderly s
    → After IsOrderly (offer_next i s w)
unfolding offer_next
offer_next-IsOrderly i s (working b (e ∷ es)) g h =
    busy-IsOrderly s _ (busy s i (working b (e ∷ es)) h g refl) refl refl (enqueue-closed e s.queue)
      (λ c. rw c refl) h
offer_next-IsOrderly i s (working b []) g h = tt
offer_next-IsOrderly i s (parked es) g h = tt
offer_next-IsOrderly i s answered g h = tt

pub finish_request-IsOrderly :
    (i : ℕ) (s : Process) (w : Handling)
    → get_elem? s.handlings i ≡ some w
    → IsOrderly s
    → After IsOrderly (finish_request i s w)
unfolding finish_request
finish_request-IsOrderly i s (working b []) g h =
    busy-IsOrderly s _ (busy s i (working b []) h g refl) refl refl refl (λ e. refl) h
finish_request-IsOrderly i s (working b (e ∷ es)) g h = tt
finish_request-IsOrderly i s (parked es) g h = tt
finish_request-IsOrderly i s answered g h = tt
