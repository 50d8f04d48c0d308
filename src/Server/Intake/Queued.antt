-- ===== src/Server/Intake/Queued.antt =====
-- pkg/server/server.go: what ServeHTTP leaves in the queue.
use cee_exporter.Parser.OneFs.{parse_one_fs_event_decoded}
use cee_exporter.Parser.CheckEvent.{parse_check_event_request_decoded}
use cee_exporter.Common.{
  refl, ◌∙◌, not, ◌||◌, Option, none, some, List, [], ◌∷◌, map, if◌then◌else◌, Bytes, arith,
  if-both,
}
use cee_exporter.Metrics.{
  record_event, record_breakdown, record_fast, record_slow, record_peer_heartbeat,
}
use cee_exporter.Queue.{enqueue}
use cee_exporter.Parser.Event.{CepaEvent}
use cee_exporter.Parser.Classify.{
  Dialect, dialect_unknown, dialect_register_request, dialect_heart_beat_request,
  dialect_check_file_request, dialect_check_event_request,
}
use cee_exporter.Parser.CheckEvent.{is_empty}
use cee_exporter.Mapper.{WindowsEvent, map_event}
use cee_exporter.Server.{Handler, Request, on_store}
use cee_exporter.Server.Dispatch.{
  Platform, enqueue_one, enqueue_loop, enqueue_events, serve_register, serve_heart_beat,
  one_fs_parsed, serve_check_file, cee_parsed, vcaps_parsed, serve_check_event, serve_vcaps,
  serve_dialect, serve_classified, is_heartbeat, peer_host,
}
use cee_exporter.Server.Intake.{offer, or_no_events, dialect_events, classified_events}
use cee_exporter.Server.Intake.Offered.{
  enqueue-eq, offer-eq, Offers, none-Offers, Offers-before, Offers-named, Offers-if, respond-Offers,
  log_unhandled-Offers, enqueue_throttled, record_peer_heartbeat_throttled,
  record_peer_registration_throttled,
}

module _ (p : Platform) where
  enqueue_one-Offers :
      (host : Bytes) (e : CepaEvent) (h : Handler)
      → Offers (map_event p.os_hostname e host ∷ []) (enqueue_one p host e h) h
  unfolding enqueue_one offer record_event record_breakdown record_fast record_slow
  enqueue_one-Offers host e h = record {
    offered = enqueue-eq (map_event p.os_hostname e host) _ _ (ground arith);
    host_kept = ground arith;
    throttled_kept = enqueue_throttled (map_event p.os_hostname e host) _ ∙ ground arith;
  }

  enqueue_loop-Offers :
      (host : Bytes) (es : List CepaEvent) (h : Handler)
      → Offers (map (λ e. map_event p.os_hostname e host) es) (enqueue_loop p host es h) h
  unfolding enqueue_loop offer
  enqueue_loop-Offers host [] h = none-Offers h h refl refl refl
  enqueue_loop-Offers host (e ∷ es) h =
      let k = enqueue_loop-Offers host es (enqueue_one p host e h) in
      let l = enqueue_one-Offers host e h in
      record {
        offered =
            k.offered
            ∙ offer-eq (map (λ e. map_event p.os_hostname e host) es) (enqueue_one p host e h).queue
                (enqueue (map_event p.os_hostname e host) h.queue).0 l.offered;
        host_kept = k.host_kept ∙ l.host_kept;
        throttled_kept = k.throttled_kept ∙ l.throttled_kept;
      }

  -- The events as the queue is given them.
  abbrev pub mapped : Bytes → Request → List CepaEvent → List WindowsEvent
  mapped hostname r es =
      map (λ e. map_event p.os_hostname e (if is_empty hostname then r.host else hostname)) es

  enqueue_events-Offers :
      (es : List CepaEvent) (r : Request) (h : Handler)
      → Offers (mapped h.hostname r es) (enqueue_events p es r h) h
  unfolding enqueue_events
  enqueue_events-Offers es r h =
      Offers-before _ _ _ h (enqueue_loop-Offers _ es _) (none-Offers _ h refl refl refl)

  one_fs_parsed-Offers :
      (r : Request) (d b : Bytes) (o : Option (List CepaEvent)) (h : Handler)
      → Offers (mapped h.hostname r (or_no_events o)) (one_fs_parsed p r d b o h) h
  unfolding one_fs_parsed
  one_fs_parsed-Offers r d b none h =
      Offers-before [] _ _ h (log_unhandled-Offers _ _ _ _ d b _) (none-Offers _ h refl refl refl)
  one_fs_parsed-Offers r d b (some es) h = enqueue_events-Offers es r h

  cee_parsed-Offers :
      (r : Request) (d b : Bytes) (o : Option (List CepaEvent)) (h : Handler)
      → Offers (mapped h.hostname r (or_no_events o)) (cee_parsed p r d b o h) h
  unfolding cee_parsed
  cee_parsed-Offers r d b none h =
      Offers-before [] _ _ h (log_unhandled-Offers _ _ _ _ d b _) (none-Offers _ h refl refl refl)
  cee_parsed-Offers r d b (some es) h = enqueue_events-Offers es r h

  vcaps_parsed-Offers :
      (r : Request) (o : Option (List CepaEvent)) (h : Handler)
      → Offers (mapped h.hostname r (or_no_events o)) (vcaps_parsed p r o h) h
  unfolding vcaps_parsed
  vcaps_parsed-Offers r none h = none-Offers _ h refl refl refl
  vcaps_parsed-Offers r (some es) h =
      Offers-before _ _ _ h (enqueue_events-Offers es r _) (none-Offers _ h refl refl refl)

  serve_check_file-Offers :
      (r : Request) (d b : Bytes) (h : Handler)
      → Offers
          (mapped h.hostname r (dialect_events p r dialect_check_file_request d))
          (serve_check_file p r d b h)
          h
  unfolding serve_check_file dialect_events
  serve_check_file-Offers r d b h =
      let heard = on_store (record_peer_heartbeat (peer_host p r.remote_addr)) h in
      let c = (if is_heartbeat p d then heard else h) in
      let quiet = Offers-before [] _ c h (respond-Offers r b _ _ _ c) (
        if-both (λ g. Offers [] g h) (is_heartbeat p d) heard h
          (none-Offers heard h refl refl (record_peer_heartbeat_throttled _ h.queue.metrics))
          (none-Offers h h refl refl refl)) in
      Offers-if (mapped h.hostname r) (not r.write_ok || is_heartbeat p d) [] _ _ _ h quiet (
        Offers-named
          (λ n. mapped n r (or_no_events (parse_one_fs_event_decoded p.outside d r.receive_time))) _
          _ h (one_fs_parsed-Offers r d b (parse_one_fs_event_decoded p.outside d r.receive_time) _)
          quiet)

  serve_check_event-Offers :
      (r : Request) (d b : Bytes) (h : Handler)
      → Offers
          (mapped h.hostname r (dialect_events p r dialect_check_event_request d))
          (serve_check_event p r d b h)
          h
  unfolding serve_check_event dialect_events
  serve_check_event-Offers r d b h =
      let quiet = respond-Offers r b _ _ _ h in
      Offers-if (mapped h.hostname r) r.write_ok _ [] _ _ h
        (Offers-named
          (λ n.
            mapped n r
              (or_no_events (parse_check_event_request_decoded p.outside d r.receive_time)))
          _ _ h
          (cee_parsed-Offers r d b (parse_check_event_request_decoded p.outside d r.receive_time) _)
          quiet)
        quiet

  serve_dialect-Offers :
      (r : Request) (t : Dialect) (d b : Bytes) (h : Handler)
      → Offers (mapped h.hostname r (dialect_events p r t d)) (serve_dialect p r t d b h) h
  unfolding serve_dialect serve_register serve_heart_beat serve_vcaps dialect_events
  serve_dialect-Offers r dialect_register_request d b h =
      Offers-before [] _ _ h (respond-Offers r b _ _ _ _)
        (none-Offers _ h refl refl (record_peer_registration_throttled _ h.queue.metrics))
  serve_dialect-Offers r dialect_heart_beat_request d b h =
      Offers-before [] _ _ h (respond-Offers r b _ _ _ _)
        (none-Offers _ h refl refl (record_peer_heartbeat_throttled _ h.queue.metrics))
  serve_dialect-Offers r dialect_check_file_request d b h = serve_check_file-Offers r d b h
  serve_dialect-Offers r dialect_check_event_request d b h = serve_check_event-Offers r d b h
  serve_dialect-Offers r dialect_unknown d b h = vcaps_parsed-Offers r _ h

  pub serve_classified-Offers :
      (r : Request) (b : Bytes) (o : Option (Dialect × Bytes)) (h : Handler)
      → Offers (mapped h.hostname r (classified_events p r o)) (serve_classified p r b o h) h
  unfolding serve_classified classified_events
  serve_classified-Offers r b none h =
      Offers-before [] _ _ h (respond-Offers r b _ _ _ _) (none-Offers _ h refl refl refl)
  serve_classified-Offers r b (some (t, d)) h = serve_dialect-Offers r t d b h
