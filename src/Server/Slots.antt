-- ===== src/Server/Slots.antt =====
-- Replies and slots in pkg/server/server.go: what a request leaves of them.
use cee_exporter.Common.{
  ℕ, suc, ◌+◌, ◌≤◌, ◌≡◌, refl, ap, ◌∙◌, Bool, true, false, not, ◌&&◌, ◌||◌, Option, none, some,
  List, [], ◌∷◌, ◌++◌, if◌then◌else◌, Bytes, codes, length, bytes_eq, arith, if-both, length-append,
}
use cee_exporter.Parser.Classify.{Dialect}
use cee_exporter.Server.{Handler, Request, Reply, natural, acquire_slot, release_slot}
use cee_exporter.Server.Replies.{
  Answered, replied, answer_unreadable_body-Answered, serve_classified-Answered,
}
use cee_exporter.Server.Dispatch.{
  Platform, serve_complete, serve_long, serve_probe, serve_http, is_liveness_dialect,
}

-- The slots held are at most the limit.
abbrev pub IsWithin : Handler → Type 0
IsWithin h = h.slots ≤ natural h.limits.max_concurrent_requests

-- One more reply of this status, no slot gained, and the limits as they were.
pub record Served (status : ℕ) (g h : Handler) : Type 0 where
  pub slots_within : g.slots ≤ h.slots
  pub limits_kept : g.limits ≡ h.limits
  pub answer : Reply
  pub answered : g.replies ≡ h.replies ++ answer ∷ []
  pub has_status : answer.status ≡ status

-- Work in a slot that is given back.
acquire_slot-kept :
    (h : Handler)
    → (acquire_slot h).slots ≤ suc h.slots
      × (acquire_slot h).limits ≡ h.limits
      × (acquire_slot h).replies ≡ h.replies
unfolding acquire_slot
acquire_slot-kept h = ground arith

within-slot : (n : ℕ) (g h : Handler) → Answered n g (acquire_slot h) → Served n (release_slot g) h
unfolding release_slot
within-slot n g h l =
    let (s, m, r) = acquire_slot-kept h in
    record {
      slots_within = ground (arith, s, l.slots_kept);
      limits_kept = l.limits_kept ∙ m;
      answer = l.answer;
      answered = l.answered ∙ ap (λ z. z ++ l.answer ∷ []) r;
      has_status = l.has_status;
    }

Answered-Served : (n : ℕ) (g h : Handler) → Answered n g h → Served n g h
Answered-Served n g h l = record {
  slots_within = ground (arith, l.slots_kept);
  limits_kept = l.limits_kept;
  answer = l.answer;
  answered = l.answered;
  has_status = l.has_status;
}

module _ (p : Platform) where
  serve_complete-Served :
      (r : Request) (b : Bytes) (o : Option (Dialect × Bytes)) (h : Handler)
      → Served 200 (serve_complete p r b o h) h
  unfolding serve_complete
  serve_complete-Served r b none h = within-slot 200 _ h (serve_classified-Answered p r b none _)
  serve_complete-Served r b (some (t, d)) h =
      if-both (λ g. Served 200 g h) (is_liveness_dialect p t d) _ _
        (Answered-Served 200 _ h (serve_classified-Answered p r b (some (t, d)) h))
        (within-slot 200 _ h (serve_classified-Answered p r b (some (t, d)) _))

  serve_long-Served :
      (r : Request) (b : Bytes) (o : Option Bytes) (h : Handler)
      → Served 200 (serve_long p r b o h) h
  unfolding serve_long
  serve_long-Served r b none h = within-slot 200 _ h (answer_unreadable_body-Answered r b _ _)
  serve_long-Served r b (some rest) h =
      within-slot 200 _ h (serve_classified-Answered p r (b ++ rest) _ _)

  serve_probe-Served :
      (r : Request) (o : Option (Bytes × Bool)) (h : Handler) → Served 200 (serve_probe p r o h) h
  unfolding serve_probe
  serve_probe-Served r none h = Answered-Served 200 _ h (answer_unreadable_body-Answered r [] _ h)
  serve_probe-Served r (some (b, true)) h = serve_complete-Served r b _ h
  serve_probe-Served r (some (b, false)) h = serve_long-Served r b _ h

-- Whether ServeHTTP takes the method.
unfoldable pub is_accepted : Bytes → Bool
is_accepted m = bytes_eq m (codes "PUT") || bytes_eq m (codes "POST")

by_method :
    (put post : Bool) (x y h : Handler)
    → Served 405 x h
    → Served 200 y h
    → Served (if put || post then 200 else 405) (if not put && not post then x else y) h
by_method true true x y h k l = l
by_method true false x y h k l = l
by_method false true x y h k l = l
by_method false false x y h k l = k

Served-via :
    (n : ℕ) (f g h : Handler)
    → g.slots ≡ h.slots
    → g.limits ≡ h.limits
    → g.replies ≡ h.replies
    → Served n f g
    → Served n f h
Served-via n f g h s l r a = record {
  slots_within = ground (arith, a.slots_within, s);
  limits_kept = a.limits_kept ∙ l;
  answer = a.answer;
  answered = a.answered ∙ ap (λ z. z ++ a.answer ∷ []) r;
  has_status = a.has_status;
}

-- Every request is answered exactly once, whatever its body holds and wherever the read of it
-- fails: with status 200 if its method is PUT or POST, and with 405 if not. It keeps no slot when
-- it ends, and does not change the limits.
pub serve_http-Served :
    (p : Platform) (r : Request) (h : Handler)
    → Served (if is_accepted r.method then 200 else 405) (serve_http p r h) h
unfolding serve_http is_accepted
serve_http-Served p r h =
    by_method (bytes_eq r.method (codes "PUT")) (bytes_eq r.method (codes "POST")) _ _ h
      (Answered-Served 405 _ h (replied _ 405 _ h refl refl refl refl))
      (Served-via 200 _ _ h refl refl refl (serve_probe-Served p r _ _))

-- The requests one after the other.
unfoldable pub serve_all : Platform → List Request → Handler → Handler
serve_all p [] h = h
serve_all p (r ∷ rs) h = serve_all p rs (serve_http p r h)

-- Any list of requests is answered with as many replies, and the slots held stay within the
-- configured number of concurrent requests where they were within it before.
pub serve_all-IsWithin :
    (p : Platform) (rs : List Request) (h : Handler)
    → IsWithin h
    → IsWithin (serve_all p rs h)
      × (length (serve_all p rs h).replies ≡ length h.replies + length rs)
unfolding serve_all
serve_all-IsWithin p [] h w = (w, omega arith)
serve_all-IsWithin p (r ∷ rs) h w =
    let s = serve_http-Served p r h in
    let (v, n) =
      serve_all-IsWithin p rs (serve_http p r h)
        (rw s.limits_kept (omega (arith, s.slots_within, w))) in
    (v, omega (arith, n, ap length s.answered, length-append h.replies (s.answer ∷ [])))
