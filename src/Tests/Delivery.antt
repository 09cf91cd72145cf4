-- ===== src/Tests/Delivery.antt =====
-- Examples for the delivery of events and for the status of a run.
use flowctl.Prelude.{
  ◌++◌, ◌≡◌, refl, ◌↔◌, true, false, none, some, Option, List, [], ◌∷◌, length, All,
}
use flowctl.Prelude.Int.{pos}
use flowctl.Proto.Enums.{RunStatus}
use flowctl.Runner.Stream.{
  Event, Cause, eof, status, Code, DeliveryError, is_canceled, unknown, context_canceled, Incoming,
  ProcessStream, SinkStream, response,
}
use flowctl.Runner.Delivery.{fan_out}
use flowctl.Runner.Delivery.Acknowledged.{Acknowledges, fan_out_iff}
use flowctl.Runner.Group.{
  GroupEvent, ended, cancelled, conclude, wait, terminal, signal, context_done, blocked, concluded,
}
use flowctl.Runner.Lifecycle.{interrupted}
use flowctl.Runner.Group.Verdict.{
  EndsWith, first_failure, verdict, cancelled_run_blocks, canceled_failure_completes,
}

abbrev events : List Event
events = record { id = "1"; type = "ledger" } ∷ record { id = "2"; type = "trade" } ∷ []

abbrev from : Incoming
from = record { events = events; ending = eof }

-- A sink that takes the ledger events, and acknowledges what it was sent.
abbrev sink : SinkStream
sink = record {
  id = "sink";
  accepted = "ledger" ∷ [];
  send = λ log e. none;
  close_and_recv = λ log.
      response (record { events_consumed = pos (length log); events_failed = pos 0; errors = 0 });
}

abbrev processor : ProcessStream
processor = record { send = λ log e. none; close_send = λ log. none }

fan_out_iff_example :
    (fan_out "processor" "processor-sink" from (sink ∷ []) ≡ none)
    ↔ ((eof ≡ eof) × All (Acknowledges events) (sink ∷ []))
fan_out_iff_example = fan_out_iff "processor" "processor-sink" from (sink ∷ [])

abbrev live : Option Cause
live = none

abbrev failed_with : Cause → DeliveryError
failed_with err = record {
  from = "source";
  to = "sink";
  kind = "source-sink";
  operation = "send";
  event = none;
  err = err;
}

-- One edge ends, another one fails; and, after a cancellation, one that is cancelled.
abbrev lost : List GroupEvent
lost = ended none ∷ ended (some (failed_with (unknown "lost"))) ∷ []

abbrev cut : List GroupEvent
cut = ended (some (failed_with context_canceled)) ∷ []

verdict_example :
    EndsWith
      (λ status. true)
      true
      terminal
      (conclude terminal false false (wait lost))
      RunStatus.completed
      none
      (some (failed_with (unknown "lost")))
    × EndsWith
        (λ status. true)
        true
        signal
        (conclude signal true false (wait (lost ++ cancelled ∷ cut)))
        RunStatus.stopped
        (some interrupted)
        (some (failed_with (unknown "lost")))
    × EndsWith
        (λ status. true)
        true
        context_done
        (conclude context_done true false (wait (lost ++ cancelled ∷ cut)))
        RunStatus.stopped
        none
        (some (failed_with (unknown "lost")))
unfolding is_canceled first_failure
verdict_example = verdict (λ status. true) true lost cut (tt, (refl, tt)) (refl, tt)

cancelled_run_blocks_example :
    conclude terminal true false (wait (ended none ∷ cancelled ∷ cut)) ≡ blocked
unfolding is_canceled
cancelled_run_blocks_example = cancelled_run_blocks (ended none ∷ []) cut (tt, tt) (refl, tt) refl

canceled_failure_completes_example :
    conclude terminal false false
      (wait (ended none ∷ ended (some (failed_with (status Code.canceled))) ∷ lost))
    ≡ concluded RunStatus.completed none
unfolding is_canceled
canceled_failure_completes_example =
    canceled_failure_completes (ended none ∷ []) lost (failed_with (status Code.canceled)) (tt, tt)
      refl refl
