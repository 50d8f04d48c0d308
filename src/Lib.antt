-- ===== src/Lib.antt =====
-- cee-exporter: a consumer of Dell CEPA audit events. Publishers (Dell CEE, PowerScale OneFS) send
-- requests to one URL. The handler tells the dialect of a request from its root element, answers in
-- that dialect and in the encoding of the request, parses the events, maps each to a Windows audit
-- event and puts it in a bounded queue; the workers of the queue hand batches to a writer (GELF,
-- syslog, Beats, an EVTX file, or several of them).
--
-- What models what:
--   Common        Boolean tests, lists over the native numbers, byte strings, association lists (Go
--                 maps), signed integers
--   Metrics       pkg/metrics/metrics.go: Store and its operations, as functions Store → Store;
--                 Snapshot holds the copies it hands out, Reached the stores that its operations
--                 reach
--   Prometheus    pkg/prometheus/handler.go: the series of a scrape
--   Queue         pkg/queue/queue.go: Queue with its workers and the phases of Stop; `step` makes
--                 one move of a goroutine, a timer or the writer, and `run` a schedule of moves;
--                 Ledger is the abstract view, two bags of events that are quotients of lists
--   Parser        pkg/parser: Utf16 (utf16.go), Classify (classify.go), OneFs (onefs.go),
--                 CheckEvent (checkevent.go), Vcaps (parser.go); Event holds the records, Text what
--                 is used of strings, bytes and strconv
--   Mapper        pkg/mapper/mapper.go, and WindowsEvent of pkg/evtx/writer.go
--   Server        pkg/server: Server and Server/Dispatch (server.go), Server/Register (register.go,
--                 heartbeat.go), Server/Redact (redact.go), Server/Health (health.go);
--                 Server/Intake is what a request brings to the queue, read off the request alone
--   Serving       cmd/cee-exporter/main.go from the start of the queue to the end of `run`: the
--                 requests in flight with their slots, the queue, a failure of the listener, and
--                 the shutdown, as moves of a schedule
--   Writers       pkg/evtx: Writers (writer.go, writer_multi.go, the batches of writer_syslog.go,
--                 writer_gelf.go and writer_beats.go), Sockets (their connections), Messages (the
--                 fields of their messages), Fields and Budget (writer_evtx_notwindows.go), Win32
--                 (writer_windows.go); Octets is a reader of the syslog framing
--   Cmd           cmd/cee-exporter: the checks of the configuration, buildWriter, the test events;
--                 Cmd/Config the defaults and pkg/log/log.go, Cmd/Startup `run` up to where it
--                 serves, Cmd/Tls (tls.go), Cmd/Service (service_windows.go), Cmd/Signals
--                 (sighup_notwindows.go)
--   Tests         runs of the model, and each theorem at a concrete input
--
-- A Go function is a definition of its name in snake_case; an error is `none` or `false`. A byte
-- string is the list of its bytes, an int64 counter its bit pattern, added modulo 2^64. A request
-- carries what the outside does to it: whether the body fails, whether the reply can be written,
-- and the clock. Calls out of the repository (encoding/xml, encoding/base64, time.Parse,
-- net.SplitHostPort, os.Hostname, strings.ToValidUTF8, the sockets, the constructors of the
-- writers) are fields of a record or arguments. In Server one request runs at a time, and a wait
-- for a slot ends when another request gives its slot up; in Serving the requests are side by side,
-- and a request waits until a slot is free. http.Server is taken as net/http documents it: Shutdown
-- returns without an error only when no connection is left.
--
-- Fuel: `budget_loop` has one round more than the fields have bytes, and each round takes bytes
-- away; `digits_onto` has 64 digits, enough for 64 bits in any base; `build_writer` has a depth of
-- calls.
--
-- Not modelled: the encoders of the messages and of the HTTP replies, the formats of the files and
-- of the Prometheus text, the cryptography, the service manager, the goroutine that serves the
-- metrics, and records of the log below level Warn: these are calls of libraries. In Serving what
-- the handlers count in the metrics is left out.
pub mod Common
pub mod Metrics
pub mod Queue
pub mod Parser
pub mod Prometheus
pub mod Mapper
pub mod Server
pub mod Serving
pub mod Writers
pub mod Cmd
pub mod Tests
