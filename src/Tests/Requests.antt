-- ===== src/Tests/Requests.antt =====
-- pkg/server at a few requests.
use cee_exporter.Common.{
  ◌≡◌, refl, inl, true, false, none, [], ◌∷◌, ◌++◌, codes, pos, arith, if◌then◌else◌,
}
use cee_exporter.Metrics.{zero_store}
use cee_exporter.Queue.{Config, start}
use cee_exporter.Parser.Event.{Time, Outside}
use cee_exporter.Server.{Handler, Request, new_handler, limits_with_defaults}
use cee_exporter.Server.Dispatch.{Platform, serve_http}
use cee_exporter.Server.Register.{RegistrationConfig, escape_attr}
use cee_exporter.Server.Register.Escape.{unescape, unescape-escape_attr}
use cee_exporter.Server.Slots.{Served, is_accepted, serve_http-Served, IsWithin}
use cee_exporter.Server.Intake.{takes_slot, intake}
use cee_exporter.Server.Intake.Slotted.{Queued, serve_http-Queued}
use cee_exporter.Server.Redact.{outside, inside, go, redact_payload, redact_step, text_mark}
use cee_exporter.Server.Redact.Silence.{reach, redact_payload-blind, is_value}

abbrev config : Config
config = record {
  capacity = pos 2;
  workers = pos 1;
  drain_timeout = pos 0;
  max_batch = pos 2;
  batch_timeout = pos 0;
}

-- A platform on which no document unmarshals, base64 decodes to nothing and no time parses.
abbrev outside_calls : Outside
outside_calls = record {
  unmarshal_batch = λ b. none;
  unmarshal_single = λ b. none;
  unmarshal_one_fs = λ b. none;
  unmarshal_check_event = λ b. none;
  unmarshal_action = λ b. none;
  base64_decode = λ b. none;
  parse_time = λ layout s. none;
}

abbrev platform : Platform
platform = record {
  outside = outside_calls;
  split_host_port = λ addr. none;
  os_hostname = codes "exporter";
  sha256 = λ s. s;
  to_valid_utf8 = λ s. s;
}

abbrev registration : RegistrationConfig
registration = record {
  friendly_name = [];
  guid = [];
  description = [];
  protocols = [];
  event_filter = [];
  version = [];
}

abbrev handler : Handler
handler =
    new_handler (start config zero_store) [] registration
      (record { max_body_mb = pos 0; max_concurrent_requests = pos 2 })

abbrev now : Time
now = record { sec = pos 1000; nsec = 5 }

abbrev heartbeat : Request
heartbeat = record {
  method = codes "PUT";
  remote_addr = codes "nas:1";
  host = codes "consumer";
  body = codes "<HeartBeatRequest />";
  broken = false;
  write_ok = true;
  start_unix = 1000;
  receive_time = now;
}

serve_http-Served_example :
    Served
      (if is_accepted heartbeat.method then 200 else 405)
      (serve_http platform heartbeat handler)
      handler
serve_http-Served_example = serve_http-Served platform heartbeat handler

within : IsWithin handler
unfolding new_handler limits_with_defaults
within = omega arith

unescape-escape_attr_example : unescape 0 (escape_attr (codes "a\"<b>&'")) ≡ codes "a\"<b>&'"
unescape-escape_attr_example = unescape-escape_attr (codes "a\"<b>&'")

reaches : reach outside [] (codes "<Event path=") ≡ go inside (codes "<Event path=")
unfolding reach redact_step text_mark codes
reaches = refl

values : (is_value b'"' (codes "/ifs/secret") ≡ true) × (is_value b'"' (codes "x") ≡ true)
unfolding codes
values = (refl, refl)

redact_payload-blind_example :
    redact_payload
      (λ s. s)
      (codes "<Event path=" ++ (b'"' ∷ codes "/ifs/secret" ++ b'"' ∷ codes "/>"))
    ≡ redact_payload (λ s. s) (codes "<Event path=" ++ (b'"' ∷ codes "x" ++ b'"' ∷ codes "/>"))
redact_payload-blind_example =
    redact_payload-blind (λ s. s) (codes "<Event path=") (codes "/>") (codes "/ifs/secret")
      (codes "x") (codes "<Event path=") b'"' reaches (inl refl) values.0 values.1

serve_http-Queued_example :
    Queued
      (takes_slot platform heartbeat)
      (intake platform handler.limits handler.hostname heartbeat)
      (serve_http platform heartbeat handler)
      handler
serve_http-Queued_example = serve_http-Queued platform heartbeat handler
