-- ===== src/Writers/Sockets/Calls.antt =====
-- The calls of GELFWriter and SyslogWriter on the connection that they share.
use cee_exporter.Common.{
  ℕ, ◌≡◌, Bool, not, Option, none, some, List, [], ◌∷◌, Bytes, if-both, Option-cases, inl, inr,
}
use cee_exporter.Mapper.{WindowsEvent}
use cee_exporter.Writers.{
  Transport, attempt_all, send_with_retry, build_all, socket_write_event, send_payloads,
  socket_write_batch,
}
use cee_exporter.Common.Assoc.{Assoc}
use cee_exporter.Writers.Messages.{Json, SyslogMessage}
use cee_exporter.Writers.Sockets.{
  GelfConfig, SyslogConfig, gelf_endpoint, syslog_endpoint, Socket, send_on, send_raw, socket_close,
  gelf_write_event, gelf_write_batch, syslog_write_event, syslog_write_batch,
}
use cee_exporter.Writers.Sockets.Single.{
  Network, network_dial, network_close, network_write, write_with, HoldsOne, connect-HoldsOne,
  closed-none,
}

-- What the operations on a world keep is kept by the retry, by a loop over payloads, by a call.
module _ {S : Type 0} (P : S → Type 0) where
  abbrev pub Keeps : (S → S × Bool) → Type 0
  Keeps f = (s : S) → P s → P (f s).0

  send_with_retry-Keeps :
      (send reconnect : S → S × Bool)
      → Keeps send
      → Keeps reconnect
      → Keeps (send_with_retry send reconnect)
  unfolding send_with_retry
  send_with_retry-Keeps send reconnect h k s p =
      let p1 = h s p in
      let p2 = k (send s).0 p1 in
      let p3 = h (reconnect (send s).0).0 p2 in
      let Q : S × Bool → Type 0 = λ r. P r.0 in
      if-both Q (send s).1 _ _ p1 (
        if-both Q (not (reconnect (send s).0).1) _ _ p2
          (if-both Q (send (reconnect (send s).0).0).1 _ _ p3 p3))

  attempt_all-Keeps {ℓ} :
      {A : Type ℓ} (f : A → S → S × Bool) (xs : List A)
      → ((a : A) → Keeps (f a))
      → Keeps (attempt_all f xs)
  unfolding attempt_all
  attempt_all-Keeps f [] h s p = p
  attempt_all-Keeps f (x ∷ xs) h s p = attempt_all-Keeps f xs h (f x s).0 (h x s p)

  module _ (build : WindowsEvent → Option Bytes) (send : Bytes → S → S × Bool)
      (reconnect : S → S × Bool) (h : (b : Bytes) → Keeps (send b)) (k : Keeps reconnect)
      (t : Transport) where
    socket_write_event-Keeps :
        (e : WindowsEvent) → Keeps (socket_write_event build send reconnect t e)
    unfolding socket_write_event
    socket_write_event-Keeps e s p = elim (Option-cases (build e)) [
      | inl n ↦ rw (n, socket_write_event) p
      | inr (b, q) ↦
          rw (q, socket_write_event) (send_with_retry-Keeps (send _) reconnect (h _) k s p)
    ]

    send_payloads-Keeps : (ps : List Bytes) → Keeps (send_payloads build send reconnect t ps)
    unfolding send_payloads
    send_payloads-Keeps [] s p = p
    send_payloads-Keeps (b ∷ ps) s p =
        if-both (λ (r : S × Bool). P r.0) t.tcp _ _
          (send_with_retry-Keeps (send _) reconnect (h _) k s p)
          (attempt_all-Keeps (λ q. send_with_retry (send q) reconnect) (b ∷ ps)
            (λ q. send_with_retry-Keeps (send q) reconnect (h q) k) s p)

    socket_write_batch-Keeps :
        (es : List WindowsEvent) → Keeps (socket_write_batch build send reconnect t es)
    unfolding socket_write_batch
    socket_write_batch-Keeps es s p = send_payloads-Keeps (build_all build es).0 s p

-- Which of the two writers, with its configuration and encoder.
pub data Backend : Type 0 where
  gelf : GelfConfig → (Assoc Bytes Json → Option Bytes) → Backend
  syslog : SyslogConfig → (SyslogMessage → Option Bytes) → Backend

pub data SocketCall : Type 0 where
  one : WindowsEvent → SocketCall
  many : List WindowsEvent → SocketCall

unfoldable pub call_of : Backend → SocketCall → Socket ℕ Network → Socket ℕ Network × Bool
call_of (gelf cfg encode) (one e) w =
    gelf_write_event network_dial network_close network_write cfg encode e w
call_of (gelf cfg encode) (many es) w =
    gelf_write_batch network_dial network_close network_write cfg encode es w
call_of (syslog cfg marshal) (one e) w =
    syslog_write_event network_dial network_close network_write cfg marshal e w
call_of (syslog cfg marshal) (many es) w =
    syslog_write_batch network_dial network_close network_write cfg marshal es w

unfoldable pub calls : Backend → List SocketCall → Socket ℕ Network → Socket ℕ Network
calls b [] w = w
calls b (c ∷ cs) w = calls b cs (call_of b c w).0

abbrev pub Holds : Socket ℕ Network → Type 0
Holds w = HoldsOne w.conn w.world

write_with-HoldsOne :
    (os : List Bool) (o : Option ℕ) (n : Network) → HoldsOne o n → HoldsOne o (write_with os n).0
unfolding write_with
write_with-HoldsOne [] o n h = h
write_with-HoldsOne (b ∷ os) none n h = h
write_with-HoldsOne (b ∷ os) (some c) n h = h

send_on-HoldsOne :
    (b : Bytes) (o : Option ℕ) (n : Network)
    → HoldsOne o n
    → HoldsOne o (send_on network_dial network_close network_write b o n).0
unfolding send_on
send_on-HoldsOne b none n h = h
send_on-HoldsOne b (some c) n h = write_with-HoldsOne n.writes (some c) n h

send_raw-Holds : (b : Bytes) → Keeps Holds (send_raw network_dial network_close network_write b)
unfolding send_raw
send_raw-Holds b w h = send_on-HoldsOne b w.conn w.world h

call_of-Holds : (b : Backend) (c : SocketCall) → Keeps Holds (call_of b c)
unfolding call_of gelf_write_event gelf_write_batch syslog_write_event syslog_write_batch
call_of-Holds (gelf cfg encode) (one e) =
    socket_write_event-Keeps Holds _ _ _ send_raw-Holds (connect-HoldsOne (gelf_endpoint cfg)) _ e
call_of-Holds (gelf cfg encode) (many es) =
    socket_write_batch-Keeps Holds _ _ _ send_raw-Holds (connect-HoldsOne (gelf_endpoint cfg)) _ es
call_of-Holds (syslog cfg marshal) (one e) =
    socket_write_event-Keeps Holds _ _ _ send_raw-Holds (connect-HoldsOne (syslog_endpoint cfg)) _ e
call_of-Holds (syslog cfg marshal) (many es) =
    socket_write_batch-Keeps Holds _ _ _ send_raw-Holds (connect-HoldsOne (syslog_endpoint cfg)) _
      es

-- Whatever dials, writes and closes fail, a GELF or a syslog writer that is given events and
-- batches in any order has one connection open, the one it holds, or none if it began with none and
-- no dial has succeeded: no retry leaks a connection, and after Close none is open.
pub calls-Holds :
    (b : Backend) (cs : List SocketCall) (w : Socket ℕ Network)
    → Holds w
    → Holds (calls b cs w)
      × ((socket_close network_dial network_close (calls b cs w)).0.world.live ≡ [])
unfolding calls socket_close
calls-Holds b [] w h = (h, closed-none w.conn w.world h)
calls-Holds b (c ∷ cs) w h = calls-Holds b cs (call_of b c w).0 (call_of-Holds b c w h)
