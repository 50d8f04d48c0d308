-- ===== src/Server/Intake/Audited.antt =====
-- pkg/parser, pkg/mapper and pkg/server together: what kind of events a request brings.
use mathlib.Core.Bool.{false≢true}
use cee_exporter.Common.{
  ◌≡◌, refl, Bool, true, false, not, ◌&&◌, ◌||◌, Option, none, some, List, [], ◌∷◌, map,
  if◌then◌else◌, Bytes, every, arith, if-both,
}
use cee_exporter.Parser.Text.{parse_int}
use cee_exporter.Parser.Event.{
  CepaEvent, RawEvent, CheckEvent, Time, OneFsRequest, OneFsNfsEventArgs, Outside,
}
use cee_exporter.Parser.Classify.{
  Dialect, dialect_unknown, dialect_register_request, dialect_heart_beat_request,
  dialect_check_file_request, dialect_check_event_request, classify,
}
use cee_exporter.Parser.OneFs.{
  parse_int64, one_fs_events, parse_one_fs_event_decoded, decode_base64_utf16,
}
use cee_exporter.Parser.CheckEvent.{
  convert_check_event, convert_check_events, parse_check_event_request_decoded, is_empty,
}
use cee_exporter.Parser.Vcaps.{convert, convert_all, parse_single, parse_decoded}
use cee_exporter.Mapper.{map_event}
use cee_exporter.Mapper.Audit.{fits64, in_range, is_audit, map_event-is_audit}
use cee_exporter.Server.{LimitsConfig, Request}
use cee_exporter.Server.Slots.{is_accepted}
use cee_exporter.Server.Dispatch.{Platform, is_heartbeat}
use cee_exporter.Server.Intake.{
  or_no_events, readable_body, dialect_events, classified_events, body_events, intake,
}

abbrev AllInRange : List CepaEvent → Type 0
AllInRange es = every in_range es ≡ true

parse_int-fits : (s : Bytes) → fits64 (parse_int s).int ≡ true
unfolding parse_int
parse_int-fits [] = refl
parse_int-fits (c ∷ s) = ground arith

parse_int64-fits : (s : Bytes) → fits64 (parse_int64 s) ≡ true
unfolding parse_int64
parse_int64-fits [] = refl
parse_int64-fits (c ∷ s) = parse_int-fits _

-- A result that is passed on, or none.
bind-in_range :
    {A : Type 0} (o : Option A) (f : A → Option (List CepaEvent))
    → ((a : A) → AllInRange (or_no_events (f a)))
    → AllInRange (or_no_events (elim o [ none ↦ none | some a ↦ f a ]))
bind-in_range none f h = refl
bind-in_range (some a) f h = h a

and-parts : (a b : Bool) → (a && b) ≡ true → (a ≡ true) × (b ≡ true)
and-parts true b h = (refl, h)
and-parts false b h = absurd (false≢true h)

module _ (lib : Outside) where
  convert-in_range : (r : RawEvent) (t : Time) → in_range (convert lib r t) ≡ true
  unfolding convert
  convert-in_range r t =
      rw
        (
          parse_int64-fits r.bytes_read,
          parse_int64-fits r.bytes_written,
          parse_int64-fits r.number_of_reads,
          parse_int64-fits r.number_of_writes,
        )
        refl

  convert_all-in_range : (rs : List RawEvent) (t : Time) → AllInRange (convert_all lib rs t)
  unfolding convert_all
  convert_all-in_range [] t = refl
  convert_all-in_range (r ∷ rs) t = rw (convert-in_range r t) (convert_all-in_range rs t)

  parse_single-in_range : (b : Bytes) (t : Time) → AllInRange (or_no_events (parse_single lib b t))
  unfolding parse_single
  parse_single-in_range b t = bind-in_range (lib.unmarshal_single b) _ (λ r.
      if-both (λ o. AllInRange (or_no_events o)) (is_empty r.event_type) none
        (some (convert lib r t ∷ [])) refl (rw (convert-in_range r t) refl))

  parse_decoded-in_range :
      (b : Bytes) (t : Time) → AllInRange (or_no_events (parse_decoded lib b t))
  unfolding parse_decoded
  parse_decoded-in_range b t = next (lib.unmarshal_batch b)
    where
      next :
          (o : Option (List RawEvent))
          → AllInRange (
              or_no_events (elim o [
                | none ↦ parse_single lib b t
                | some [] ↦ parse_single lib b t
                | some (r ∷ rs) ↦ some (convert_all lib (r ∷ rs) t)
              ]))
      next none = parse_single-in_range b t
      next (some []) = parse_single-in_range b t
      next (some (r ∷ rs)) = convert_all-in_range (r ∷ rs) t

  convert_check_events-in_range :
      (es : List CheckEvent) (t : Time) → AllInRange (convert_check_events lib es t)
  unfolding convert_check_events convert_check_event
  convert_check_events-in_range [] t = refl
  convert_check_events-in_range (e ∷ es) t = convert_check_events-in_range es t

  parse_check_event-in_range :
      (b : Bytes) (t : Time) → AllInRange (or_no_events (parse_check_event_request_decoded lib b t))
  unfolding parse_check_event_request_decoded
  parse_check_event-in_range b t =
      bind-in_range (lib.unmarshal_check_event b) _ (λ r. some_events r.events)
    where
      some_events :
          (es : List CheckEvent)
          → AllInRange (
              or_no_events
                (elim es [ [] ↦ none | e ∷ rest ↦ some (convert_check_events lib (e ∷ rest) t) ]))
      some_events [] = refl
      some_events (e ∷ es) = convert_check_events-in_range (e ∷ es) t

  one_fs_events-in_range :
      (r : OneFsRequest) (a : OneFsNfsEventArgs) (t : Time)
      → AllInRange (or_no_events (one_fs_events lib r a t))
  unfolding one_fs_events
  one_fs_events-in_range r a t = bind-in_range (decode_base64_utf16 lib r.name) _ (λ path.
      rw
        (
          parse_int64-fits a.bytes_read,
          parse_int64-fits a.bytes_written,
          parse_int64-fits a.number_of_reads,
          parse_int64-fits a.number_of_writes,
        )
        refl)

  parse_one_fs-in_range :
      (b : Bytes) (t : Time) → AllInRange (or_no_events (parse_one_fs_event_decoded lib b t))
  unfolding parse_one_fs_event_decoded
  parse_one_fs-in_range b t =
      bind-in_range (lib.unmarshal_one_fs b) _
        (λ r. bind-in_range r.nfs _ (λ a. one_fs_events-in_range r a t))

module _ (p : Platform) where
  dialect_events-in_range :
      (r : Request) (d : Dialect) (b : Bytes) → AllInRange (dialect_events p r d b)
  unfolding dialect_events
  dialect_events-in_range r dialect_register_request b = refl
  dialect_events-in_range r dialect_heart_beat_request b = refl
  dialect_events-in_range r dialect_check_file_request b =
      if-both AllInRange (not r.write_ok || is_heartbeat p b) _ _ refl
        (parse_one_fs-in_range p.outside b r.receive_time)
  dialect_events-in_range r dialect_check_event_request b =
      if-both AllInRange r.write_ok _ _ (parse_check_event-in_range p.outside b r.receive_time) refl
  dialect_events-in_range r dialect_unknown b = parse_decoded-in_range p.outside b r.receive_time

  body_events-in_range : (r : Request) (o : Option Bytes) → AllInRange (body_events p r o)
  unfolding body_events classified_events
  body_events-in_range r none = refl
  body_events-in_range r (some b) = next (classify b)
    where
      next : (o : Option (Dialect × Bytes)) → AllInRange (classified_events p r o)
      next none = refl
      next (some (d, b)) = dialect_events-in_range r d b

  map-is_audit :
      (hostname : Bytes) (es : List CepaEvent)
      → AllInRange es
      → every is_audit (map (λ e. map_event p.os_hostname e hostname) es) ≡ true
  map-is_audit hostname [] h = refl
  map-is_audit hostname (e ∷ es) h =
      let k = and-parts (in_range e) (every in_range es) h in
      rw (map_event-is_audit p.os_hostname e hostname k.0) (map-is_audit hostname es k.1)

  -- Whatever a request holds, the events it brings are Windows audit events.
  pub intake-is_audit :
      (limits : LimitsConfig) (hostname : Bytes) (r : Request)
      → every is_audit (intake p limits hostname r) ≡ true
  unfolding intake
  intake-is_audit limits hostname r =
      map-is_audit (if is_empty hostname then r.host else hostname) _ (
        if-both AllInRange (is_accepted r.method) _ _
          (body_events-in_range r (readable_body limits r)) refl)
