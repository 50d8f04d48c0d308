-- ===== src/Serving/Written.antt =====
-- From the requests of a process to the calls of its writer.
use cee_exporter.Common.{
  ◌≡◌, refl, Bool, true, not, some, List, [], ◌∷◌, arith, Bytes, count, count-append, every,
}
use cee_exporter.Metrics.{Store}
use cee_exporter.Queue.Conservation.{handed, run-IsBalanced}
use cee_exporter.Queue.{Config}
use cee_exporter.Mapper.{WindowsEvent}
use cee_exporter.Mapper.Audit.{is_audit}
use cee_exporter.Server.{LimitsConfig, Request, limits_with_defaults}
use cee_exporter.Server.Dispatch.{Platform}
use cee_exporter.Server.Intake.Audited.{intake-is_audit}
use cee_exporter.Serving.Induction.{After, After-if, Rules, Rules-run}
use cee_exporter.Serving.Requests.{run-Accounts}
use cee_exporter.Serving.Flow.{serving-IsRun}
use cee_exporter.Serving.{
  Move, Process, acquire, offer_next, finish_request, shutdown, close_queue, end_run, fail_listener,
  move_queue, signal, arrive, begin, events, run,
}

count-every :
    (p : WindowsEvent → Bool) (es : List WindowsEvent)
    → every p es ≡ true
    → count (λ e. not (p e)) es ≡ 0
count-every p [] h = refl
count-every p (e ∷ es) h = ground (arith, h, count-every p es)

abbrev stray : WindowsEvent → Bool
stray e = not (is_audit e)

-- Nothing else has arrived.
abbrev IsPure : Process → Type 0
IsPure s = count stray s.arrived ≡ 0

module _ (p : Platform) (limits : LimitsConfig) (hostname : Bytes) where
  arrive-IsPure :
      (r : Request) (s : Process) → IsPure s → After IsPure (arrive p limits hostname r s)
  unfolding arrive
  arrive-IsPure r s h = After-if IsPure s.reachable _ (λ b. omega (
    arith,
    h,
    count-append stray s.arrived (events p limits hostname r),
    count-every is_audit (events p limits hostname r)
        (intake-is_audit p (limits_with_defaults limits) hostname r),
  ))

  -- Only `arrive` adds to what has arrived.
  IsPure-Rules : Rules p limits hostname IsPure
  unfolding acquire offer_next finish_request signal shutdown close_queue move_queue end_run
      fail_listener
  IsPure-Rules = record {
    at_arrive = arrive-IsPure;
    at_acquire = λ i s w g h. ground arith;
    at_offer = λ i s w g h. ground arith;
    at_return = λ i s w g h. ground arith;
    at_signal = λ t s e h. ground arith;
    at_shutdown = λ b t s e h. ground arith;
    at_close = λ t s e h. ground arith;
    at_queue = λ a s h. ground arith;
    at_end = λ t ph s e h. ground arith;
    at_fail = λ t s e h. ground arith;
  }

  begin-IsPure : (c : Config) (m : Store) → IsPure (begin p limits hostname c m)
  unfolding begin
  begin-IsPure c m = refl

-- Whatever requests arrive and however the goroutines interleave, every event in a completed call
-- of the writer is a Windows audit event: its ID goes with its access mask, its counters are int64
-- values and its handle has at most three digits.
pub written-is_audit :
    (p : Platform) (limits : LimitsConfig) (hostname : Bytes) (c : Config) (m : Store)
    (ms : List Move) (s : Process)
    → run p limits hostname ms (begin p limits hostname c m) ≡ some s
    → handed (λ e. not (is_audit e)) s.queue ≡ 0
written-is_audit p limits hostname c m ms s e =
    let (as', q) = serving-IsRun c m p limits hostname ms s e in
    omega (
      arith,
      Rules-run p limits hostname IsPure (IsPure-Rules p limits hostname) ms _ s e
          (begin-IsPure p limits hostname c m),
      (run-Accounts p limits hostname c m ms s e).0 stray,
      run-IsBalanced c m as' s.queue q stray,
    )
