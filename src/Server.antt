-- ===== src/Server.antt =====
-- pkg/server/server.go: the handler of the CEPA URL. One request is one call of `serve_http`; a
-- wait for a slot ends when another request releases one. Log records of level Info and Debug are
-- left out.
pub mod Health
pub mod Redact
pub mod Register
pub mod Dispatch
pub mod Accounting
mod Replies
pub mod Slots
pub mod Intake
use cee_exporter.Common.{
  ℕ, zero, suc, ◌+◌, ◌-◌, ◌*◌, ◌%◌, ◌^◌, Bool, true, false, not, ◌&&◌, ◌||◌, Option, none, some,
  List, [], ◌∷◌, ◌++◌, ◌==◌, ltb, leb, if◌then◌else◌, Bytes, codes, length, take, drop, ℤ, pos,
  negsuc, bytes_eq, add64,
}
use cee_exporter.Metrics.{
  Store, record_event, record_peer_request_at, record_peer_registration, record_peer_heartbeat,
}
use cee_exporter.Queue.{Queue}
use cee_exporter.Parser.Utf16.{is_utf16, encode_utf16le}
use cee_exporter.Parser.Event.{Time, Outside, CepaEvent}
use cee_exporter.Mapper.{WindowsEvent}
use cee_exporter.Server.Register.{
  RegistrationConfig, registration_with_defaults, registration_response_xml,
}
use cee_exporter.Server.Redact.{redact_payload, payload_digest}

pub record LimitsConfig : Type 0 where
  pub max_body_mb : ℤ
  pub max_concurrent_requests : ℤ

-- A positive number, or 8.
abbrev pub or_eight : ℤ → ℤ
or_eight (pos zero) = pos 8
or_eight (pos (suc n)) = pos (suc n)
or_eight (negsuc n) = pos 8

unfoldable pub limits_with_defaults : LimitsConfig → LimitsConfig
limits_with_defaults c = record {
  max_body_mb = or_eight c.max_body_mb;
  max_concurrent_requests = or_eight c.max_concurrent_requests;
}

abbrev pub natural : ℤ → ℕ
natural (pos n) = n
natural (negsuc n) = 0

-- maxBodyBytes() minus what the probe read, in 64 bits; http.MaxBytesReader takes a negative limit
-- as 0.
unfoldable pub rest_limit : LimitsConfig → ℕ → ℕ
rest_limit c probe =
    let n = (natural c.max_body_mb * 2 ^ 20 % 2 ^ 64 + 2 ^ 64 - probe) % 2 ^ 64 in
    if ltb n (2 ^ 63) then n else 0

-- A record of level Warn or Error.
pub data Log : Type 0 where
  failure : Bytes → Log
  unhandled : Bytes → ℕ → ℕ → Bytes → Bytes → Log
  unmapped : Bytes → Bytes → Bytes → Log

-- What the client is sent; `delivered` is whether the write of the body succeeded.
pub record Reply : Type 0 where
  pub status : ℕ
  pub content_type : Bytes
  pub body : Bytes
  pub delivered : Bool

-- The body holds these bytes, and then ends or, if `broken`, fails.
pub record Request : Type 0 where
  pub method : Bytes
  pub remote_addr : Bytes
  pub host : Bytes
  pub body : Bytes
  pub broken : Bool
  pub write_ok : Bool
  -- the clock when the handler starts, and at the time of receipt
  pub start_unix : ℕ
  pub receive_time : Time

-- Handler, with the store and the queue it writes to, the slots held, the log and the replies.
pub record Handler : Type 0 where
  pub queue : Queue WindowsEvent
  pub hostname : Bytes
  pub registration : RegistrationConfig
  pub register_reply : Bytes
  pub limits : LimitsConfig
  pub slots : ℕ
  pub onefs_unhandled : ℕ
  pub cee_unhandled : ℕ
  pub logs : List Log
  pub replies : List Reply

unfoldable pub new_handler :
    Queue WindowsEvent → Bytes → RegistrationConfig → LimitsConfig → Handler
new_handler q hostname reg limits = record {
  queue = q;
  hostname = hostname;
  registration = registration_with_defaults reg;
  register_reply = registration_response_xml (registration_with_defaults reg);
  limits = limits_with_defaults limits;
  slots = 0;
  onefs_unhandled = 0;
  cee_unhandled = 0;
  logs = [];
  replies = [];
}

-- Calls of the store, metrics.M.
abbrev pub on_store : (Store → Store) → Handler → Handler
on_store f h = record h { queue = record h.queue { metrics = f h.queue.metrics } }

abbrev pub add_log : Log → Handler → Handler
add_log l h = record h { logs = h.logs ++ l ∷ [] }

abbrev pub add_reply : Reply → Handler → Handler
add_reply r h = record h { replies = h.replies ++ r ∷ [] }

-- metrics.M.EventsDroppedTotal.Add(1)
abbrev pub count_drop : Store → Store
count_drop s = record s { events_dropped_total = add64 s.events_dropped_total 1 }

abbrev pub count_throttle : Store → Store
count_throttle s = record s { requests_throttled_total = add64 s.requests_throttled_total 1 }

abbrev pub count_received : ℕ → Store → Store
count_received n s = record s { events_received_total = add64 s.events_received_total n }

-- acquireSlot: with no slot free, the wait ends with the slot of another request.
unfoldable pub acquire_slot : Handler → Handler
acquire_slot h =
    if ltb h.slots (natural h.limits.max_concurrent_requests)
    then record h { slots = h.slots + 1 }
    else on_store count_throttle h

unfoldable pub release_slot : Handler → Handler
release_slot h = record h { slots = h.slots - 1 }

-- respond: the reply, and whether it was written.
unfoldable pub respond : Request → Bytes → Bytes → Bytes → Bytes → Handler → Handler
respond r req_body reply content_type err_event h =
    let sent =
      add_reply
        (record {
          status = 200;
          content_type = content_type;
          body = if is_utf16 req_body then encode_utf16le reply else reply;
          delivered = r.write_ok;
        })
        h in
    if r.write_ok then sent else add_log (failure err_event) sent

-- checkEventResponse
unfoldable pub check_event_response : Bytes
check_event_response = codes "<CheckEventResponse status=\"0x0\"/>\n"

unfoldable pub answer_unreadable_body : Request → Bytes → Bytes → Handler → Handler
answer_unreadable_body r probe event h =
    respond r probe check_event_response (codes "text/xml") (event ++ codes "_response_write_error")
      (add_log (failure event) (on_store count_drop h))

-- readProbe at the limit n: the probe and `complete`, or `none` for an error. The limit reader
-- reads at most n + 1 bytes, so an error that stands behind them is not met.
unfoldable pub read_probe : Request → ℕ → Option (Bytes × Bool)
read_probe r n =
    if leb (length r.body) n && r.broken
    then none
    else some (take (n + 1) r.body, leb (length r.body) n)

-- readBody behind a probe of n + 1 bytes.
unfoldable pub read_body : Request → ℕ → ℕ → Option Bytes
read_body r skip max_body =
    let rest = drop skip r.body in
    if ltb max_body (length rest) || r.broken then none else some rest

-- handshakeProbeBytes
abbrev pub handshake_probe_bytes : ℕ
handshake_probe_bytes = 8 * 1024

-- logUnhandled: the first ten with their shape, then every thousandth.
unfoldable pub log_unhandled :
    (Bytes → Bytes) → (Bytes → Bytes) → Bytes → ℕ → Bytes → Bytes → Handler → Handler
log_unhandled sha256 to_valid_utf8 event seen decoded body h =
    let record_of = unhandled event (length body) seen (payload_digest sha256 body) in
    if leb seen 10
    then add_log (record_of (redact_payload to_valid_utf8 decoded)) h
    else if seen % 1000 == 0
    then add_log (record_of (codes "suppressed")) h
    else h
