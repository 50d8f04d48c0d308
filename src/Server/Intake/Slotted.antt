-- ===== src/Server/Intake/Slotted.antt =====
-- pkg/server/server.go: ServeHTTP against the intake of its request.
use mathlib.Core.Path.{subst}
use cee_exporter.Common.{
  ℕ, ◌-◌, ◌≡◌, refl, ap, ◌∙◌, Bool, true, false, not, ◌&&◌, ◌||◌, Option, none, some, List, [],
  ◌++◌, ltb, leb, if◌then◌else◌, Bytes, length, take, drop, arith, inl, inr, Bool-cases, add64,
  take-append-drop, take_all, length-take_within, length-drop, codes, bytes_eq,
}
use cee_exporter.Metrics.{Store, record_peer_request_at}
use cee_exporter.Parser.Event.{CepaEvent}
use cee_exporter.Parser.Classify.{Dialect, classify}
use cee_exporter.Mapper.{WindowsEvent}
use cee_exporter.Server.{
  Handler, Request, on_store, natural, acquire_slot, release_slot, read_probe, read_body,
  rest_limit, handshake_probe_bytes,
}
use cee_exporter.Server.Slots.{is_accepted}
use cee_exporter.Server.Dispatch.{
  Platform, serve_complete, serve_long, serve_probe, serve_http, is_liveness_dialect, peer_host,
}
use cee_exporter.Server.Intake.{
  offer, readable_body, classified_events, body_events, intake, is_live, takes_slot,
}
use cee_exporter.Server.Intake.Offered.{
  bare, throttled, Offers, offer-eq, answer_unreadable_body-Offers,
}
use cee_exporter.Server.Intake.Queued.{mapped, serve_classified-Offers}

abbrev pub is_full : Handler → Bool
is_full h = not (ltb h.slots (natural h.limits.max_concurrent_requests))

-- The count of throttled requests, with one more if a slot is taken and none is free.
abbrev pub after_slot : Bool → Handler → ℕ
after_slot takes h = if takes && is_full h then add64 (throttled h) 1 else throttled h

-- From `h` to `g` the queue is offered these events, and a slot is taken if `takes`.
pub record Queued (takes : Bool) (es : List WindowsEvent) (g h : Handler) : Type 0 where
  pub offered : bare g.queue ≡ bare (offer es h.queue)
  pub counted : throttled g ≡ after_slot takes h

without-slot : (es : List WindowsEvent) (g h : Handler) → Offers es g h → Queued false es g h
without-slot es g h k = record { offered = k.offered; counted = k.throttled_kept }

acquire_slot-counts :
    (h : Handler)
    → (bare (acquire_slot h).queue ≡ bare h.queue)
      × ((acquire_slot h).hostname ≡ h.hostname)
      × (throttled (acquire_slot h) ≡ after_slot true h)
unfolding acquire_slot
acquire_slot-counts h = ground arith

within-slot :
    (m : Bytes → List WindowsEvent) (g h : Handler)
    → Offers (m (acquire_slot h).hostname) g (acquire_slot h)
    → Queued true (m h.hostname) (release_slot g) h
unfolding release_slot
within-slot m g h k =
    let (q, n, t) = acquire_slot-counts h in
    record {
      offered =
          subst (λ x. bare g.queue ≡ bare (offer (m x) h.queue)) n
            (k.offered ∙ offer-eq (m (acquire_slot h).hostname) (acquire_slot h).queue h.queue q);
      counted = k.throttled_kept ∙ t;
    }

by_method :
    (put post takes : Bool) (es : List CepaEvent) (m : List CepaEvent → List WindowsEvent)
    (x y h : Handler)
    → Queued false (m []) x h
    → Queued takes (m es) y h
    → Queued
        ((put || post) && takes)
        (m (if put || post then es else []))
        (if not put && not post then x else y)
        h
by_method true true takes es m x y h k l = l
by_method true false takes es m x y h k l = l
by_method false true takes es m x y h k l = l
by_method false false takes es m x y h k l = k

module _ (p : Platform) where
  serve_complete-Queued :
      (r : Request) (b : Bytes) (o : Option (Dialect × Bytes)) (h : Handler)
      → Queued
          (not (is_live p o))
          (mapped p h.hostname r (classified_events p r o))
          (serve_complete p r b o h)
          h
  unfolding serve_complete is_live
  serve_complete-Queued r b none h =
      within-slot (λ n. mapped p n r (classified_events p r none)) _ h
        (serve_classified-Offers p r b none _)
  serve_complete-Queued r b (some (t, d)) h = elim (Bool-cases (is_liveness_dialect p t d)) [
    | inl e ↦ rw e (without-slot _ _ h (serve_classified-Offers p r b (some (t, d)) h))
    | inr e ↦ rw e (
        within-slot (λ n. mapped p n r (classified_events p r (some (t, d)))) _ h
          (serve_classified-Offers p r b (some (t, d)) _))
  ]

  abbrev rest_events : Request → Bytes → Option Bytes → List CepaEvent
  rest_events r b none = []
  rest_events r b (some rest) = classified_events p r (classify (b ++ rest))

  serve_long-Queued :
      (r : Request) (b : Bytes) (o : Option Bytes) (h : Handler)
      → Queued true (mapped p h.hostname r (rest_events r b o)) (serve_long p r b o h) h
  unfolding serve_long
  serve_long-Queued r b none h = within-slot (λ n. []) _ h (answer_unreadable_body-Offers r b _ _)
  serve_long-Queued r b (some rest) h =
      within-slot (λ n. mapped p n r (rest_events r b (some rest))) _ h
        (serve_classified-Offers p r (b ++ rest) _ _)

  serve_probe-Queued :
      (r : Request) (h : Handler) (small broken : Bool)
      → leb (length r.body) handshake_probe_bytes ≡ small
      → r.broken ≡ broken
      → Queued
          (if small then not broken && not (is_live p (classify r.body)) else true)
          (mapped p h.hostname r (body_events p r (readable_body h.limits r)))
          (serve_probe p r (read_probe r handshake_probe_bytes) h)
          h
  unfolding serve_probe read_body read_probe readable_body body_events
  serve_probe-Queued r h true true e f =
      rw (e, f) (without-slot [] _ h (answer_unreadable_body-Offers _ [] _ h))
  serve_probe-Queued r h true false e f =
      rw (e, f, take_all 8193 r.body (ground arith))
        (serve_complete-Queued (record r { broken = false }) r.body (classify r.body) h)
  serve_probe-Queued r h false true e f =
      rw (e, f, length-take_within 8193 r.body (ground arith))
        (elim (Bool-cases (ltb (rest_limit h.limits 8193) (length (drop 8193 r.body)))) [
          | inl l ↦ rw l (serve_long-Queued (record r { broken = true }) (take 8193 r.body) none h)
          | inr l ↦ rw l (serve_long-Queued (record r { broken = true }) (take 8193 r.body) none h)
        ])
  serve_probe-Queued r h false false e f =
      rw (e, f, length-take_within 8193 r.body (ground arith), length-drop 8193 r.body)
        (elim (Bool-cases (ltb (rest_limit h.limits 8193) (length r.body - 8193))) [
          | inl l ↦ rw l (serve_long-Queued (record r { broken = false }) (take 8193 r.body) none h)
          | inr l ↦ rw l (
              rw (take-append-drop 8193 r.body) at (
                serve_long-Queued (record r { broken = false }) (take 8193 r.body)
                  (some (drop 8193 r.body)) h))
        ])

  record_peer_request_at_throttled :
      (peer : Bytes) (t : ℕ) (m : Store)
      → (record_peer_request_at peer t m).requests_throttled_total ≡ m.requests_throttled_total
  unfolding record_peer_request_at
  record_peer_request_at_throttled peer t m = ground arith

  -- Whatever a request holds, it puts into the queue exactly the events that can be read off it, in
  -- their order: the queue is what it is after one `Enqueue` for each of them, but for the
  -- counters. And it is counted as throttled exactly if it takes a slot while none is free.
  pub serve_http-Queued :
      (r : Request) (h : Handler)
      → Queued (takes_slot p r) (intake p h.limits h.hostname r) (serve_http p r h) h
  unfolding serve_http takes_slot intake is_accepted offer
  serve_http-Queued r h =
      let heard = on_store (record_peer_request_at (peer_host p r.remote_addr) r.start_unix) h in
      let k = serve_probe-Queued r heard _ _ refl refl in
      by_method (bytes_eq r.method (codes "PUT")) (bytes_eq r.method (codes "POST")) _ _
        (mapped p h.hostname r) _ _ h (record { offered = refl; counted = refl })
        (record {
          offered =
              k.offered
              ∙ offer-eq (mapped p h.hostname r (body_events p r (readable_body h.limits r)))
                  heard.queue h.queue refl;
          counted =
              k.counted
              ∙ ap
                  (λ (n : ℕ).
                    if (if leb (length r.body) 8192
                        then not r.broken && not (is_live p (classify r.body))
                        else true)
                      && is_full h
                    then add64 n 1
                    else n)
                  (record_peer_request_at_throttled _ r.start_unix h.queue.metrics);
        })
