-- ===== src/Server/Intake/Offered.antt =====
-- What one operation of pkg/server/server.go leaves in the queue, and how two of them compose.
use mathlib.Core.Path.{subst}
use cee_exporter.Common.{
  ℕ, ◌≡◌, ◌%◌, ◌==◌, refl, sym, ap, ◌∙◌, Bool, true, false, List, [], ◌∷◌, ltb, leb, if◌then◌else◌,
  Bytes, length, arith, if-both, inl, inr, Bool-cases,
}
use cee_exporter.Metrics.{zero_store, Store, record_peer_heartbeat, record_peer_registration}
use cee_exporter.Queue.{Queue, enqueue}
use cee_exporter.Parser.Event.{CepaEvent}
use cee_exporter.Mapper.{WindowsEvent}
use cee_exporter.Server.{Handler, Request, respond, answer_unreadable_body, log_unhandled}
use cee_exporter.Server.Intake.{offer}

-- A queue without its counters, which none of its operations reads.
abbrev pub bare : Queue WindowsEvent → Queue WindowsEvent
bare q = record q { metrics = zero_store }

enqueue-bare :
    (e : WindowsEvent) (q : Queue WindowsEvent) → bare (enqueue e q).0 ≡ bare (enqueue e (bare q)).0
unfolding enqueue
enqueue-bare e q = elim (Bool-cases q.closed) [
  | inl c ↦ rw c refl
  | inr c ↦
      rw c
        (elim (Bool-cases (ltb (length q.ch) q.capacity)) [ inl r ↦ rw r refl | inr r ↦ rw r refl ])
]

pub enqueue-eq :
    (e : WindowsEvent) (q q' : Queue WindowsEvent)
    → bare q ≡ bare q'
    → bare (enqueue e q).0 ≡ bare (enqueue e q').0
enqueue-eq e q q' h = enqueue-bare e q ∙ ap (λ z. bare (enqueue e z).0) h ∙ sym (enqueue-bare e q')

pub offer-eq :
    (es : List WindowsEvent) (q q' : Queue WindowsEvent)
    → bare q ≡ bare q'
    → bare (offer es q) ≡ bare (offer es q')
unfolding offer
offer-eq [] q q' h = h
offer-eq (e ∷ es) q q' h = offer-eq es _ _ (enqueue-eq e q q' h)

abbrev pub throttled : Handler → ℕ
throttled h = h.queue.metrics.requests_throttled_total

-- From `h` to `g` the queue is offered these events, and no request is counted as throttled.
pub record Offers (es : List WindowsEvent) (g h : Handler) : Type 0 where
  pub offered : bare g.queue ≡ bare (offer es h.queue)
  pub host_kept : g.hostname ≡ h.hostname
  pub throttled_kept : throttled g ≡ throttled h

pub none-Offers :
    (g h : Handler)
    → bare g.queue ≡ bare h.queue
    → g.hostname ≡ h.hostname
    → throttled g ≡ throttled h
    → Offers [] g h
unfolding offer
none-Offers g h q n t = record { offered = q; host_kept = n; throttled_kept = t }

pub Offers-before :
    (es : List WindowsEvent) (f g h : Handler) → Offers es f g → Offers [] g h → Offers es f h
unfolding offer
Offers-before es f g h k l = record {
  offered = k.offered ∙ offer-eq es _ _ l.offered;
  host_kept = k.host_kept ∙ l.host_kept;
  throttled_kept = k.throttled_kept ∙ l.throttled_kept;
}

pub Offers-after :
    (es : List WindowsEvent) (f g h : Handler) → Offers [] f g → Offers es g h → Offers es f h
unfolding offer
Offers-after es f g h k l = record {
  offered = k.offered ∙ l.offered;
  host_kept = k.host_kept ∙ l.host_kept;
  throttled_kept = k.throttled_kept ∙ l.throttled_kept;
}

-- The same, where the events depend on the configured host name.
pub Offers-named :
    (m : Bytes → List WindowsEvent) (f g h : Handler)
    → Offers (m g.hostname) f g
    → Offers [] g h
    → Offers (m h.hostname) f h
Offers-named m f g h k l =
    subst (λ n. Offers (m n) f h) l.host_kept (Offers-before (m g.hostname) f g h k l)

pub Offers-if :
    (m : List CepaEvent → List WindowsEvent) (b : Bool) (es ds : List CepaEvent) (f g h : Handler)
    → Offers (m es) f h
    → Offers (m ds) g h
    → Offers (m (if b then es else ds)) (if b then f else g) h
Offers-if m true es ds f g h k l = k
Offers-if m false es ds f g h k l = l

pub respond-Offers :
    (r : Request) (b reply t e : Bytes) (h : Handler) → Offers [] (respond r b reply t e h) h
unfolding respond
respond-Offers r b reply t e h =
    if-both (λ g. Offers [] g h) r.write_ok _ _ (none-Offers _ h refl refl refl)
      (none-Offers _ h refl refl refl)

pub answer_unreadable_body-Offers :
    (r : Request) (b e : Bytes) (h : Handler) → Offers [] (answer_unreadable_body r b e h) h
unfolding answer_unreadable_body
answer_unreadable_body-Offers r b e h =
    Offers-after [] _ _ h (respond-Offers r b _ _ _ _) (none-Offers _ h refl refl refl)

pub log_unhandled-Offers :
    (g f : Bytes → Bytes) (event : Bytes) (n : ℕ) (d b : Bytes) (h : Handler)
    → Offers [] (log_unhandled g f event n d b h) h
unfolding log_unhandled
log_unhandled-Offers g f event n d b h =
    if-both (λ g. Offers [] g h) (leb n 10) _ _ (none-Offers _ h refl refl refl)
      (if-both (λ g. Offers [] g h) (n % 1000 == 0) _ _ (none-Offers _ h refl refl refl)
        (none-Offers h h refl refl refl))

pub enqueue_throttled :
    (e : WindowsEvent) (q : Queue WindowsEvent)
    → (enqueue e q).0.metrics.requests_throttled_total ≡ q.metrics.requests_throttled_total
unfolding enqueue
enqueue_throttled e q = ground arith

pub record_peer_heartbeat_throttled :
    (peer : Bytes) (m : Store)
    → (record_peer_heartbeat peer m).requests_throttled_total ≡ m.requests_throttled_total
unfolding record_peer_heartbeat
record_peer_heartbeat_throttled peer m = ground arith

pub record_peer_registration_throttled :
    (peer : Bytes) (m : Store)
    → (record_peer_registration peer m).requests_throttled_total ≡ m.requests_throttled_total
unfolding record_peer_registration
record_peer_registration_throttled peer m = ground arith
