-- ===== src/Writers/Fields/Bound.antt =====
-- The records of pkg/evtx/writer_evtx_notwindows.go fit the budget of go-evtx.
use cee_exporter.Common.{
  ℕ, ◌≤◌, ◌≡◌, refl, Bool, not, ◌||◌, some, leb, Bytes, codes, bytes_eq, length, arith, ◌∙◌,
}
use cee_exporter.Common.Assoc.{bytes_key, IsMap, keys_distinct-IsMap}
use cee_exporter.Parser.Event.{Time}
use cee_exporter.Mapper.{WindowsEvent}
use cee_exporter.Metrics.{Store}
use cee_exporter.Writers.{EvtxWriter}
use cee_exporter.Writers.Budget.{Fields, encoded_total, max_encoded_fields_bytes}
use cee_exporter.Writers.Budget.Fits.{enforce_encoded_budget-fits}
use cee_exporter.Writers.Fields.{
  event_fields, any_clipped, clipped_values, count_truncated, windows_event_to_fields,
  evtx_write_event,
}

event_fields-IsMap :
    (format_time : Time → Bytes) (e : WindowsEvent) → IsMap (event_fields format_time e)
unfolding event_fields bytes_eq codes
event_fields-IsMap format_time e = keys_distinct-IsMap (event_fields format_time e) refl

event_fields-length :
    (format_time : Time → Bytes) (e : WindowsEvent) → length (event_fields format_time e) ≡ 19
unfolding event_fields
event_fields-length format_time e = refl

-- Whether a value of an event is cut, on its own or by the budget.
abbrev pub is_cut : (Time → Bytes) → WindowsEvent → Bool
is_cut format_time e =
    any_clipped (clipped_values e)
    || not (leb (encoded_total (event_fields format_time e)) max_encoded_fields_bytes)

-- For every event, however long its values, and any way to print its time, WriteEvent ends and
-- hands go-evtx one record with all 19 fields within the budget of encoded bytes. The truncation
-- counter goes up by one exactly if a value was over its own limit or the fields over the budget.
pub evtx_write_event-fits :
    {S : Type 0} (format_time : Time → Bytes) (write : ℕ → Fields → S → S × Bool) (e : WindowsEvent)
    (b : EvtxWriter S) (m : Store)
    → (fields : Fields) × (evtx_write_event format_time write e (b, m)
        ≡ some (
          (
            record b { file = (write e.event_id fields b.file).0 },
            count_truncated (is_cut format_time e) m,
          ),
          (write e.event_id fields b.file).1,
        ))
      × (encoded_total fields ≤ max_encoded_fields_bytes)
      × (length fields ≡ 19)
unfolding evtx_write_event windows_event_to_fields
evtx_write_event-fits format_time write e b m =
    let (f, r, fits, long) =
      enforce_encoded_budget-fits (event_fields format_time e) (event_fields-IsMap format_time e)
        (omega (arith, event_fields-length format_time e)) in
    (
      f,
      rw (r, evtx_write_event, windows_event_to_fields) refl,
      fits,
      long ∙ event_fields-length format_time e,
    )
