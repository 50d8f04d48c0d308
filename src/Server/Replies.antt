-- ===== src/Server/Replies.antt =====
-- pkg/server/server.go from the classified payload on: one reply, and the slots as they were.
use cee_exporter.Common.{
  ℕ, ◌≡◌, refl, ap, ◌∙◌, not, ◌||◌, Option, none, some, List, [], ◌∷◌, ◌++◌, if◌then◌else◌, Bytes,
  arith, if-both,
}
use cee_exporter.Metrics.{record_peer_heartbeat}
use cee_exporter.Parser.Event.{CepaEvent}
use cee_exporter.Parser.Classify.{
  Dialect, dialect_unknown, dialect_register_request, dialect_heart_beat_request,
  dialect_check_file_request, dialect_check_event_request,
}
use cee_exporter.Server.{
  Handler, Request, Reply, add_reply, on_store, respond, answer_unreadable_body, log_unhandled,
}
use cee_exporter.Server.Dispatch.{
  Platform, enqueue_one, enqueue_loop, enqueue_events, serve_register, serve_heart_beat,
  one_fs_parsed, serve_check_file, cee_parsed, vcaps_parsed, serve_check_event, serve_vcaps,
  serve_dialect, serve_classified, empty_reply, is_heartbeat, peer_host,
}

-- The same slots, limits and replies.
pub record Kept (g h : Handler) : Type 0 where
  pub slots_kept : g.slots ≡ h.slots
  pub limits_kept : g.limits ≡ h.limits
  pub replies_kept : g.replies ≡ h.replies

-- The same slots and limits, and one more reply, of this status.
pub record Answered (status : ℕ) (g h : Handler) : Type 0 where
  pub slots_kept : g.slots ≡ h.slots
  pub limits_kept : g.limits ≡ h.limits
  pub answer : Reply
  pub answered : g.replies ≡ h.replies ++ answer ∷ []
  pub has_status : answer.status ≡ status

same : (h : Handler) → Kept h h
same h = record { slots_kept = refl; limits_kept = refl; replies_kept = refl }

Kept-Kept : (f g h : Handler) → Kept f g → Kept g h → Kept f h
Kept-Kept f g h k l = record {
  slots_kept = k.slots_kept ∙ l.slots_kept;
  limits_kept = k.limits_kept ∙ l.limits_kept;
  replies_kept = k.replies_kept ∙ l.replies_kept;
}

-- From a handler with the same three.
via :
    (f g h : Handler)
    → g.slots ≡ h.slots
    → g.limits ≡ h.limits
    → g.replies ≡ h.replies
    → Kept f g
    → Kept f h
via f g h s l r k = Kept-Kept f g h k (record { slots_kept = s; limits_kept = l; replies_kept = r })

Kept-Answered : (n : ℕ) (f g h : Handler) → Kept f g → Answered n g h → Answered n f h
Kept-Answered n f g h k l = record {
  slots_kept = k.slots_kept ∙ l.slots_kept;
  limits_kept = k.limits_kept ∙ l.limits_kept;
  answer = l.answer;
  answered = k.replies_kept ∙ l.answered;
  has_status = l.has_status;
}

Answered-Kept : (n : ℕ) (f g h : Handler) → Answered n f g → Kept g h → Answered n f h
Answered-Kept n f g h l k = record {
  slots_kept = l.slots_kept ∙ k.slots_kept;
  limits_kept = l.limits_kept ∙ k.limits_kept;
  answer = l.answer;
  answered = l.answered ∙ ap (λ z. z ++ l.answer ∷ []) k.replies_kept;
  has_status = l.has_status;
}

Answered-via :
    (n : ℕ) (f g h : Handler)
    → g.slots ≡ h.slots
    → g.limits ≡ h.limits
    → g.replies ≡ h.replies
    → Answered n f g
    → Answered n f h
Answered-via n f g h s l r a =
    Answered-Kept n f g h a (record { slots_kept = s; limits_kept = l; replies_kept = r })

pub replied :
    (a : Reply) (n : ℕ) (g h : Handler)
    → g.slots ≡ h.slots
    → g.limits ≡ h.limits
    → g.replies ≡ h.replies ++ a ∷ []
    → a.status ≡ n
    → Answered n g h
replied a n g h s l r e = record {
  slots_kept = s;
  limits_kept = l;
  answer = a;
  answered = r;
  has_status = e;
}

pub respond-Answered :
    (r : Request) (b reply t e : Bytes) (h : Handler) → Answered 200 (respond r b reply t e h) h
unfolding respond
respond-Answered r b reply t e h =
    if-both (λ g. Answered 200 g h) r.write_ok _ _ (replied _ 200 _ h refl refl refl refl)
      (replied _ 200 _ h refl refl refl refl)

pub answer_unreadable_body-Answered :
    (r : Request) (b e : Bytes) (h : Handler) → Answered 200 (answer_unreadable_body r b e h) h
unfolding answer_unreadable_body
answer_unreadable_body-Answered r b e h =
    Answered-via 200 _ _ h refl refl refl (respond-Answered r b _ _ _ _)

log_unhandled-Kept :
    (g f : Bytes → Bytes) (event : Bytes) (n : ℕ) (d b : Bytes) (h : Handler)
    → Kept (log_unhandled g f event n d b h) h
unfolding log_unhandled
log_unhandled-Kept g f event n d b h = record {
  slots_kept = ground arith;
  limits_kept = ground arith;
  replies_kept = ground arith;
}

module _ (p : Platform) where
  enqueue_one-Kept : (host : Bytes) (e : CepaEvent) (h : Handler) → Kept (enqueue_one p host e h) h
  unfolding enqueue_one
  enqueue_one-Kept host e h = record {
    slots_kept = ground arith;
    limits_kept = ground arith;
    replies_kept = ground arith;
  }

  enqueue_loop-Kept :
      (host : Bytes) (es : List CepaEvent) (h : Handler) → Kept (enqueue_loop p host es h) h
  unfolding enqueue_loop
  enqueue_loop-Kept host [] h = same h
  enqueue_loop-Kept host (e ∷ es) h =
      Kept-Kept _ _ _ (enqueue_loop-Kept host es (enqueue_one p host e h))
        (enqueue_one-Kept host e h)

  enqueue_events-Kept :
      (es : List CepaEvent) (r : Request) (h : Handler) → Kept (enqueue_events p es r h) h
  unfolding enqueue_events
  enqueue_events-Kept es r h = via _ _ h refl refl refl (enqueue_loop-Kept _ es _)

  one_fs_parsed-Kept :
      (r : Request) (d b : Bytes) (o : Option (List CepaEvent)) (h : Handler)
      → Kept (one_fs_parsed p r d b o h) h
  unfolding one_fs_parsed
  one_fs_parsed-Kept r d b none h = via _ _ h refl refl refl (log_unhandled-Kept _ _ _ _ d b _)
  one_fs_parsed-Kept r d b (some es) h = enqueue_events-Kept es r h

  cee_parsed-Kept :
      (r : Request) (d b : Bytes) (o : Option (List CepaEvent)) (h : Handler)
      → Kept (cee_parsed p r d b o h) h
  unfolding cee_parsed
  cee_parsed-Kept r d b none h = via _ _ h refl refl refl (log_unhandled-Kept _ _ _ _ d b _)
  cee_parsed-Kept r d b (some es) h = enqueue_events-Kept es r h

  vcaps_parsed-Answered :
      (r : Request) (o : Option (List CepaEvent)) (h : Handler)
      → Answered 200 (vcaps_parsed p r o h) h
  unfolding vcaps_parsed
  vcaps_parsed-Answered r none h = replied (empty_reply p) 200 _ h refl refl refl refl
  vcaps_parsed-Answered r (some es) h =
      let k = enqueue_events-Kept es r (add_reply (empty_reply p) h) in
      replied (empty_reply p) 200 _ h k.slots_kept k.limits_kept k.replies_kept refl

  serve_check_file-Answered :
      (r : Request) (d b : Bytes) (h : Handler) → Answered 200 (serve_check_file p r d b h) h
  unfolding serve_check_file
  serve_check_file-Answered r d b h =
      let heard = on_store (record_peer_heartbeat (peer_host p r.remote_addr)) h in
      let c = (if is_heartbeat p d then heard else h) in
      Answered-Kept 200 _ c h
        (if-both (λ g. Answered 200 g c) (not r.write_ok || is_heartbeat p d) _ _
          (respond-Answered r b _ _ _ c)
          (Kept-Answered 200 _ _ c (one_fs_parsed-Kept r d b _ _) (respond-Answered r b _ _ _ c)))
        (if-both (λ g. Kept g h) (is_heartbeat p d) heard h
          (via heard heard h refl refl refl (same heard)) (same h))

  serve_check_event-Answered :
      (r : Request) (d b : Bytes) (h : Handler) → Answered 200 (serve_check_event p r d b h) h
  unfolding serve_check_event
  serve_check_event-Answered r d b h =
      if-both (λ g. Answered 200 g h) r.write_ok _ _
        (Kept-Answered 200 _ _ h (cee_parsed-Kept r d b _ _) (respond-Answered r b _ _ _ h))
        (respond-Answered r b _ _ _ h)

  serve_dialect-Answered :
      (r : Request) (t : Dialect) (d b : Bytes) (h : Handler)
      → Answered 200 (serve_dialect p r t d b h) h
  unfolding serve_dialect serve_register serve_heart_beat serve_vcaps
  serve_dialect-Answered r dialect_register_request d b h =
      Answered-via 200 _ _ h refl refl refl (respond-Answered r b _ _ _ _)
  serve_dialect-Answered r dialect_heart_beat_request d b h =
      Answered-via 200 _ _ h refl refl refl (respond-Answered r b _ _ _ _)
  serve_dialect-Answered r dialect_check_file_request d b h = serve_check_file-Answered r d b h
  serve_dialect-Answered r dialect_check_event_request d b h = serve_check_event-Answered r d b h
  serve_dialect-Answered r dialect_unknown d b h = vcaps_parsed-Answered r _ h

  pub serve_classified-Answered :
      (r : Request) (b : Bytes) (o : Option (Dialect × Bytes)) (h : Handler)
      → Answered 200 (serve_classified p r b o h) h
  unfolding serve_classified
  serve_classified-Answered r b none h =
      Answered-via 200 _ _ h refl refl refl (respond-Answered r b _ _ _ _)
  serve_classified-Answered r b (some (t, d)) h = serve_dialect-Answered r t d b h
