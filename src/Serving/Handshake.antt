-- ===== src/Serving/Handshake.antt =====
-- The handshakes of a publisher, which pkg/server/server.go answers without a slot.
use mathlib.Core.List.{append-nil}
use cee_exporter.Common.{
  codes, bytes_eq, ◌||◌, ◌≡◌, refl, ap, ◌∙◌, Bool, true, false, ◌&&◌, Option, none, some, List, [],
  ◌∷◌, ◌++◌, map, arith, if-both, Bytes, length, get_elem?, set, leb,
}
use cee_exporter.Parser.Classify.{
  Dialect, dialect_unknown, dialect_register_request, dialect_heart_beat_request,
  dialect_check_file_request, dialect_check_event_request, classify, classify_decoded, root_is,
}
use cee_exporter.Parser.Utf16.{decode_body}
use cee_exporter.Parser.Vcaps.{check_file_action_decoded}
use cee_exporter.Server.{LimitsConfig, Request, handshake_probe_bytes, limits_with_defaults}
use cee_exporter.Server.Slots.{is_accepted}
use cee_exporter.Server.Dispatch.{Platform, is_liveness_dialect, one_fs_heartbeat_action}
use cee_exporter.Server.Intake.{
  readable_body, dialect_events, classified_events, body_events, intake, is_live, takes_slot,
}
use cee_exporter.Serving.Progress.{at_handling-eq}
use cee_exporter.Serving.{
  Handling, working, answered, Move, arrives, returns, Process, arrive, finish_request, is_ended,
  at_handling, move, step, run,
}

module _ (p : Platform) where
  -- What CEPA means by a handshake, from the root element of a decoded payload; "9" is the action
  -- of the heartbeat of OneFS.
  abbrev pub says_handshake : Bytes → Bool
  says_handshake decoded =
      root_is decoded (codes "RegisterRequest")
      || root_is decoded (codes "HeartBeatRequest")
      || (root_is decoded (codes "CheckFileRequest")
          && bytes_eq (check_file_action_decoded p.outside decoded) (codes "9"))

  -- A payload of at most 8 KiB that decodes to one.
  abbrev pub is_handshake : Request → Bool
  is_handshake r =
      leb (length r.body) 8192
      && elim (decode_body r.body) [ none ↦ false | some decoded ↦ says_handshake decoded ]

  live-events :
      (r : Request) (o : Option (Dialect × Bytes))
      → is_live p o ≡ true
      → classified_events p r o ≡ []
  unfolding is_live is_liveness_dialect classified_events dialect_events
  live-events r none h = refl
  live-events r (some (dialect_register_request, d)) h = refl
  live-events r (some (dialect_heart_beat_request, d)) h = refl
  live-events r (some (dialect_check_file_request, d)) h = ground (arith, h)
  live-events r (some (dialect_check_event_request, d)) h = ground (arith, h)
  live-events r (some (dialect_unknown, d)) h = ground (arith, h)

  live-says :
      (d : Bytes) → says_handshake d ≡ true → is_liveness_dialect p (classify_decoded d) d ≡ true
  unfolding classify_decoded is_liveness_dialect one_fs_heartbeat_action
  live-says d h = ground (arith, h)

  handshake-live : (r : Request) → is_handshake r ≡ true → is_live p (classify r.body) ≡ true
  unfolding classify is_live
  handshake-live r h = next (decode_body r.body) (ground (arith, h))
    where
      next :
          (o : Option Bytes)
          → (elim o [ none ↦ false | some d ↦ says_handshake d ]) ≡ true
          → is_live p (elim o [ none ↦ none | some d ↦ some (classify_decoded d, d) ]) ≡ true
      next none k = absurd (ground (arith, k))
      next (some d) k = live-says d k

  handshake-small :
      (r : Request) → is_handshake r ≡ true → leb (length r.body) handshake_probe_bytes ≡ true
  handshake-small r h = ground (arith, h)

  handshake-intake :
      (limits : LimitsConfig) (hostname : Bytes) (r : Request)
      → is_handshake r ≡ true
      → intake p limits hostname r ≡ []
  unfolding intake readable_body body_events
  handshake-intake limits hostname r h = ap (map _) (
      if-both (λ es. es ≡ []) (is_accepted r.method) _ []
        (if-both (λ o. body_events p r o ≡ []) _ none (some r.body) refl
          (live-events r (classify r.body) (handshake-live r h)))
        refl)

  handshake-takes_slot : (r : Request) → is_handshake r ≡ true → takes_slot p r ≡ false
  unfolding takes_slot
  handshake-takes_slot r h = rw (handshake-small r h, handshake-live r h) (ground arith)

get_elem?-last : (ws : List Handling) (w : Handling) → get_elem? (ws ++ w ∷ []) (length ws) ≡ some w
get_elem?-last [] w = refl
get_elem?-last (x ∷ ws) w = get_elem?-last ws w

set-last :
    (ws : List Handling) (w w' : Handling) → set (ws ++ w ∷ []) (length ws) w' ≡ ws ++ w' ∷ []
set-last [] w w' = refl
set-last (x ∷ ws) w w' = ap (◌∷◌ x) (set-last ws w w')

module _ (p : Platform) (limits : LimitsConfig) (hostname : Bytes) where
  step-move :
      (m : Move) (s t : Process)
      → is_ended s.stage ≡ false
      → move p limits hostname m s ≡ some t
      → step p limits hostname m s ≡ some t
  unfolding step
  step-move m s t n e = rw n e

  run-step :
      (m : Move) (ms : List Move) (s t : Process)
      → step p limits hostname m s ≡ some t
      → run p limits hostname (m ∷ ms) s ≡ run p limits hostname ms t
  unfolding run
  run-step m ms s t e = λ i. elim (e i) [ none ↦ none | some u ↦ run p limits hostname ms u ]

  run-nil : (s : Process) → run p limits hostname [] s ≡ some s
  unfolding run
  run-nil s = refl

module _ (p : Platform) (limits : LimitsConfig) (hostname : Bytes) (r : Request) (s : Process) where
  abbrev with_request : Handling → Process
  with_request w = record s { handlings = s.handlings ++ w ∷ [] }

  arrive-handshake :
      is_handshake p r ≡ true
      → s.reachable ≡ true
      → arrive p limits hostname r s ≡ some (with_request (working false []))
  unfolding arrive
  arrive-handshake h k =
      rw
        (
          k,
          handshake-takes_slot p r h,
          handshake-intake p (limits_with_defaults limits) hostname r h,
          append-nil s.arrived,
        )
        refl

  return-handshake :
      at_handling
        (finish_request (length s.handlings) (with_request (working false [])))
        (length s.handlings)
        (with_request (working false []))
      ≡ some (with_request answered)
  unfolding finish_request
  return-handshake =
      at_handling-eq _ (length s.handlings) (with_request (working false []))
        (get_elem?-last s.handlings (working false []))
      ∙ rw (set-last s.handlings (working false []) answered) refl

  -- A handshake waits for nobody: as long as connections are taken and the process has not ended, a
  -- request whose payload has at most 8 KiB and decodes to a RegisterRequest, a HeartBeatRequest or
  -- a CheckFileRequest with the action of the OneFS heartbeat arrives and returns with no move of
  -- any other goroutine between, however many requests hold or await the slots and however full the
  -- queue is; and it leaves the slots and the queue as they were.
  pub handshake_progress :
      is_handshake p r ≡ true
      → s.reachable ≡ true
      → is_ended s.stage ≡ false
      → run p limits hostname (arrives r ∷ returns (length s.handlings) ∷ []) s
        ≡ some (record s { handlings = s.handlings ++ answered ∷ [] })
  handshake_progress h k n =
      let t = with_request (working false []) in
      run-step p limits hostname (arrives r) (returns (length s.handlings) ∷ []) s t
        (step-move p limits hostname (arrives r) s t n (unfold move in arrive-handshake h k))
      ∙ run-step p limits hostname (returns (length s.handlings)) [] t (with_request answered) (
          step-move p limits hostname (returns (length s.handlings)) t (with_request answered) n
            (unfold move in return-handshake))
      ∙ run-nil p limits hostname (with_request answered)
