-- ===== src/Server/Accounting.antt =====
-- `enqueue` of pkg/server/server.go: no event of a parsed request goes missing between the parser
-- and the queue.
use cee_exporter.Common.{
  ℕ, ◌+◌, ◌≡◌, refl, ◌∙◌, Bool, List, [], ◌∷◌, map, if◌then◌else◌, Bytes, length, arith, count,
  count-append, add64,
}
use cee_exporter.Metrics.{record_event, record_breakdown, record_fast, record_slow}
use cee_exporter.Queue.{Queue, enqueue}
use cee_exporter.Parser.Event.{CepaEvent}
use cee_exporter.Parser.CheckEvent.{is_empty}
use cee_exporter.Mapper.{WindowsEvent, map_event}
use cee_exporter.Server.{Handler, Request}
use cee_exporter.Server.Dispatch.{Platform, enqueue_one, enqueue_loop, enqueue_events}

-- How many of the events that the queue was given pass a test.
abbrev pub given : (WindowsEvent → Bool) → Handler → ℕ
given t h = count t h.queue.accepted + count t h.queue.refused

enqueue-given :
    (t : WindowsEvent → Bool) (e : WindowsEvent) (q : Queue WindowsEvent)
    → count t (enqueue e q).0.accepted + count t (enqueue e q).0.refused
      ≡ count t q.accepted + count t q.refused + (if t e then 1 else 0)
unfolding enqueue
enqueue-given t e q =
    ground (arith, count-append t q.accepted (e ∷ []), count-append t q.refused (e ∷ []))

enqueue-received :
    (e : WindowsEvent) (q : Queue WindowsEvent)
    → (enqueue e q).0.metrics.events_received_total ≡ q.metrics.events_received_total
unfolding enqueue
enqueue-received e q = ground arith

module _ (p : Platform) where
  enqueue_one-given :
      (t : WindowsEvent → Bool) (host : Bytes) (e : CepaEvent) (h : Handler)
      → given t (enqueue_one p host e h)
        ≡ given t h + (if t (map_event p.os_hostname e host) then 1 else 0)
  unfolding enqueue_one
  enqueue_one-given t host e h = enqueue-given t (map_event p.os_hostname e host) _ ∙ ground arith

  enqueue_one-received :
      (host : Bytes) (e : CepaEvent) (h : Handler)
      → (enqueue_one p host e h).queue.metrics.events_received_total
        ≡ h.queue.metrics.events_received_total
  unfolding enqueue_one record_event record_breakdown record_fast record_slow
  enqueue_one-received host e h = enqueue-received (map_event p.os_hostname e host) _ ∙ ground arith

  enqueue_loop-given :
      (t : WindowsEvent → Bool) (host : Bytes) (es : List CepaEvent) (h : Handler)
      → (given t (enqueue_loop p host es h)
          ≡ given t h + count t (map (λ e. map_event p.os_hostname e host) es))
        × ((enqueue_loop p host es h).queue.metrics.events_received_total
            ≡ h.queue.metrics.events_received_total)
  unfolding enqueue_loop
  enqueue_loop-given t host [] h = (omega arith, refl)
  enqueue_loop-given t host (e ∷ es) h =
      let (g, r) = enqueue_loop-given t host es (enqueue_one p host e h) in
      (omega (arith, g, enqueue_one-given t host e h), r ∙ enqueue_one-received host e h)

-- Every parsed event reaches the queue as the Windows event it maps to, exactly once, either
-- accepted or refused: for any test, the events that pass it grow by those of the request that pass
-- it. And EventsReceivedTotal grows by their number, in 64 bits. The computer name is the
-- configured one, or the request's host if none is configured.
pub enqueue_events-given :
    (p : Platform) (t : WindowsEvent → Bool) (es : List CepaEvent) (r : Request) (h : Handler)
    → (given t (enqueue_events p es r h)
        ≡ given t h
          + count t (
              map
                (λ e.
                  map_event p.os_hostname e (if is_empty h.hostname then r.host else h.hostname))
                es))
      × ((enqueue_events p es r h).queue.metrics.events_received_total
          ≡ add64 h.queue.metrics.events_received_total (length es))
unfolding enqueue_events
enqueue_events-given p t es r h = enqueue_loop-given p t _ es _
