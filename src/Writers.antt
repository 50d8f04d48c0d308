-- ===== src/Writers.antt =====
-- pkg/evtx: the writers. Each is a set of operations on one world, which holds the sockets and the
-- files; `true` is a call without error.
pub mod Retry
pub mod Multi
pub mod Frames
pub mod Octets
pub mod Fields
pub mod Sockets
pub mod Messages
pub mod Win32
pub mod Budget
use cee_exporter.Common.{
  ℕ, zero, suc, ◌+◌, Bool, true, false, not, ◌&&◌, Option, none, some, List, [], ◌∷◌, ◌++◌,
  if◌then◌else◌, Bytes, length, map, codes,
}
use cee_exporter.Parser.Text.{format_uint}
use cee_exporter.Mapper.{WindowsEvent}

-- The interface Writer. `rotate` is there for the writers with a method Rotate.
pub record Writer (S : Type 0) : Type 0 where
  pub write_event : WindowsEvent → S → S × Bool
  pub write_batch : List WindowsEvent → S → S × Bool
  pub close : S → S × Bool
  pub rotate : Option (S → S × Bool)

-- WindowsEvent.ShortMessage
unfoldable pub short_message : WindowsEvent → Bytes
short_message e = e.cepa_event_type ++ codes " on " ++ e.object_name

module _ {S : Type 0} where
  -- The errors of a loop that goes on after a failure, joined.
  unfoldable pub attempt_all {ℓ} : {A : Type ℓ} → (A → S → S × Bool) → List A → S → S × Bool
  attempt_all f [] s = (s, true)
  attempt_all f (a ∷ rest) s =
      let (s1, ok) = f a s in let (s2, later) = attempt_all f rest s1 in (s2, ok && later)

  unfoldable pub write_batch_serially : Writer S → List WindowsEvent → S → S × Bool
  write_batch_serially w events s = attempt_all (w.write_event) events s

  unfoldable pub send_with_retry : (S → S × Bool) → (S → S × Bool) → S → S × Bool
  send_with_retry send reconnect s =
      let (s1, sent) = send s in
      let (s2, connected) = reconnect s1 in
      let (s3, resent) = send s2 in
      if sent
      then (s1, true)
      else if not connected
      then (s2, false)
      else if resent
      then (s3, true)
      else (s3, false)

  -- MultiWriter
  unfoldable pub multi_write_event : List (Writer S) → WindowsEvent → S → S × Bool
  multi_write_event ws e s = attempt_all (λ (w : Writer S). w.write_event e) ws s

  unfoldable pub multi_write_batch : List (Writer S) → List WindowsEvent → S → S × Bool
  multi_write_batch ws events s = attempt_all (λ (w : Writer S). w.write_batch events) ws s

  unfoldable pub multi_close : List (Writer S) → S → S × Bool
  multi_close ws s = attempt_all (λ (w : Writer S). w.close) ws s

  -- Rotate of a writer that has it.
  unfoldable pub rotate_one : Option (S → S × Bool) → S → S × Bool
  rotate_one none s = (s, true)
  rotate_one (some f) s = f s

  unfoldable pub multi_rotate : List (Writer S) → S → S × Bool
  multi_rotate ws s = attempt_all (λ (w : Writer S). rotate_one w.rotate) ws s

-- writer_syslog.go: octet counting.
unfoldable pub frame_tcp : Bytes → Bytes → Bytes
frame_tcp dst payload = dst ++ format_uint 10 (length payload) ++ b' ' ∷ payload

-- The loop of SyslogWriter.WriteBatch over the payloads.
unfoldable pub syslog_frames : Bytes → List Bytes → Bytes
syslog_frames frame [] = frame
syslog_frames frame (p ∷ ps) = syslog_frames (frame_tcp frame p) ps

-- The loop of GELFWriter.WriteBatch over the payloads.
unfoldable pub gelf_frames : Bytes → List Bytes → Bytes
gelf_frames frame [] = frame
gelf_frames frame (p ∷ ps) = gelf_frames ((frame ++ p) ++ 0 ∷ []) ps

-- Whether the transport is a stream, and how one payload of it is framed.
pub record Transport : Type 0 where
  pub tcp : Bool
  pub frame_one : Bytes → Bytes
  pub frame_many : List Bytes → Bytes

abbrev pub syslog_transport : Bool → Transport
syslog_transport tcp = record { tcp = tcp; frame_one = frame_tcp []; frame_many = syslog_frames [] }

abbrev pub gelf_transport : Bool → Transport
gelf_transport tcp = record { tcp = tcp; frame_one = λ p. p ++ 0 ∷ []; frame_many = gelf_frames [] }

-- The payloads of the events that build, and whether all of them did.
unfoldable pub build_all : (WindowsEvent → Option Bytes) → List WindowsEvent → List Bytes × Bool
build_all build [] = ([], true)
build_all build (e ∷ es) =
    let (payloads, ok) = build_all build es in
    elim (build e) [ none ↦ (payloads, false) | some p ↦ (p ∷ payloads, ok) ]

-- WriteEvent and WriteBatch of SyslogWriter and of GELFWriter, which differ in the build and in the
-- framing; `send` is sendRaw and `reconnect` is connect.
module _ {S : Type 0} (build : WindowsEvent → Option Bytes) (send : Bytes → S → S × Bool)
    (reconnect : S → S × Bool) where
  unfoldable pub socket_write_event : Transport → WindowsEvent → S → S × Bool
  socket_write_event t e s = elim (build e) [
    | none ↦ (s, false)
    | some p ↦ send_with_retry (send (if t.tcp then t.frame_one p else p)) reconnect s
  ]

  -- WriteBatch after the payloads are built.
  unfoldable pub send_payloads : Transport → List Bytes → S → S × Bool
  send_payloads t [] s = (s, true)
  send_payloads t (p ∷ ps) s =
      if t.tcp
      then send_with_retry (send (t.frame_many (p ∷ ps))) reconnect s
      else attempt_all (λ q. send_with_retry (send q) reconnect) (p ∷ ps) s

  unfoldable pub socket_write_batch : Transport → List WindowsEvent → S → S × Bool
  socket_write_batch t events s =
      let (payloads, built) = build_all build events in
      let (s1, sent) = send_payloads t payloads s in (s1, built && sent)

-- BeatsWriter.WriteBatch: `dial` closes the client and dials again.
unfoldable pub beats_write_batch {ℓ} :
    {S : Type 0} {B : Type ℓ}
    → (WindowsEvent → B)
    → (List B → S → S × Bool)
    → (S → S × Bool)
    → List WindowsEvent
    → S
    → S × Bool
beats_write_batch build send dial [] s = (s, true)
beats_write_batch build send dial (e ∷ es) s = send_with_retry (send (map build (e ∷ es))) dial s

-- BinaryEvtxWriter: `closed` and `closeErr`, with the file.
pub record EvtxWriter (S : Type 0) : Type 0 where
  pub closed : Bool
  pub close_ok : Bool
  pub file : S

unfoldable pub evtx_close : {S : Type 0} → (S → S × Bool) → EvtxWriter S → EvtxWriter S × Bool
evtx_close close b =
    let (file, ok) = close b.file in
    if b.closed then (b, b.close_ok) else (record { closed = true; close_ok = ok; file = file }, ok)
