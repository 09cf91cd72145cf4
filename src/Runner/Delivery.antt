-- ===== src/Runner/Delivery.antt =====
-- The forwarding loops of the stream orchestrator: forwardSource, forward and fanOut. Each returns
-- the edge's error, or `none` when delivery on it is complete.
pub mod Acknowledged
pub mod Chain
pub mod Direct
use flowctl.Prelude.{
  ℕ, ◌+◌, String, Bool, true, false, not, ◌&&◌, ◌||◌, Option, none, some, List, [], ◌∷◌, ◌++◌, ◌==◌,
  if◌then◌else◌, is_some, map,
}
use flowctl.Prelude.Int.{ℤ, pos, eq_ℤ}
use flowctl.Runner.Stream.{
  Event, Cause, eof, unexpected_eof, missing_response, mismatch, expected, DeliveryError, is_eof,
  wraps_eof, Incoming, ProcessStream, ConsumeResponse, CloseReply, failed, missing, response,
  SinkStream, accepts,
}

abbrev pub edge : String → String → String → String → Option Event → Cause → Option DeliveryError
edge from to kind operation event err =
    some (record {
      from = from;
      to = to;
      kind = kind;
      operation = operation;
      event = event;
      err = err;
    })

-- The loop that forwards events to a processor: send each one, and handle the end by `finish`, which
-- is given what was sent. `log` holds the events sent before.
unfoldable pub forward_loop :
    (from_id to_id kind : String)
    → ProcessStream
    → (List Event → Option DeliveryError)
    → List Event
    → List Event
    → Option DeliveryError
forward_loop from_id to_id kind to finish log [] = finish log
forward_loop from_id to_id kind to finish log (e ∷ es) =
    let rest = forward_loop from_id to_id kind to finish (log ++ e ∷ []) es in
    elim (to.send log e) [ some err ↦ edge from_id to_id kind "send" (some e) err | none ↦ rest ]

abbrev pub close_edge :
    (from_id to_id kind : String) → ProcessStream → List Event → Option DeliveryError
close_edge from_id to_id kind to log = elim (to.close_send log) [
  | some err ↦ edge from_id to_id kind "close" none err
  | none ↦ none
]

-- `live` says that the context has no error when the source's stream ends.
unfoldable pub forward_source :
    (live bounded : Bool)
    → (from_id to_id : String) → ProcessStream
    → Incoming
    → Option DeliveryError
unfolding forward_loop
forward_source live bounded from_id to_id to from =
    let kind : String = "source-processor" in
    forward_loop from_id to_id kind to
      (λ log.
        if is_eof from.ending
        then (if not bounded && live
            then edge from_id to_id kind "recv (unexpected EOF)" none unexpected_eof
            else close_edge from_id to_id kind to log)
        else edge from_id to_id kind "recv" none from.ending)
      [] from.events

unfoldable pub forward : (from_id to_id : String) → ProcessStream → Incoming → Option DeliveryError
unfolding forward_loop
forward from_id to_id to from =
    let kind : String = "processor-processor" in
    forward_loop from_id to_id kind to
      (λ log.
        if is_eof from.ending
        then close_edge from_id to_id kind to log
        else edge from_id to_id kind "recv" none from.ending)
      [] from.events

-- A sink of a fan-out with its counter `sent[i]`; `log` holds the events that its stream was sent.
pub record Lane : Type 0 where
  pub sink : SinkStream
  pub sent : ℕ
  pub log : List Event

abbrev pub new_lane : SinkStream → Lane
new_lane sink = record { sink = sink; sent = 0; log = [] }

abbrev pub after_send : Lane → Event → Lane
after_send lane e = record lane { sent = lane.sent + 1; log = lane.log ++ e ∷ [] }

-- Where the sends of one event leave the fan-out: on, or with an error.
pub data Progress : Type 0 where
  going : List Lane → Progress
  stuck : Option DeliveryError → Progress

abbrev pub prepend : Lane → Progress → Progress
prepend lane (going lanes) = going (lane ∷ lanes)
prepend lane (stuck err) = stuck err

-- A send that reports EOF hides the server's error, which closing the stream brings out.
unfoldable pub send_cause : Lane → Cause → Cause
send_cause lane err =
    if wraps_eof err
    then elim (lane.sink.close_and_recv lane.log) [ failed e ↦ e | _ ↦ err ]
    else err

-- One event to every sink that accepts its type, in order.
unfoldable pub offer : (from_id kind : String) → Event → List Lane → Progress
unfolding accepts send_cause
offer from_id kind e [] = going []
offer from_id kind e (lane ∷ lanes) =
    let rest = offer from_id kind e lanes in
    if accepts lane.sink.accepted e.type
    then elim (lane.sink.send lane.log e) [
      | some err ↦ stuck (edge from_id lane.sink.id kind "send" (some e) (send_cause lane err))
      | none ↦ prepend (after_send lane e) rest
    ]
    else prepend lane rest

-- What the answer to a close is missing, when `sent` events were sent.
unfoldable pub ack_error : ℕ → CloseReply → Option Cause
ack_error sent (failed err) = some (expected sent err)
ack_error sent missing = some (missing_response sent)
ack_error sent (response r) =
    if not (eq_ℤ r.events_failed (pos 0))
      || not (r.errors == 0)
      || not (eq_ℤ r.events_consumed (pos sent))
    then some (mismatch sent r.events_consumed r.events_failed r.errors)
    else none

-- Close every stream in order; the first bad acknowledgement is the error.
unfoldable pub close_all : (from_id kind : String) → List Lane → Option DeliveryError
unfolding ack_error
close_all from_id kind [] = none
close_all from_id kind (lane ∷ lanes) =
    let rest = close_all from_id kind lanes in
    elim (ack_error lane.sent (lane.sink.close_and_recv lane.log)) [
      | some err ↦ edge from_id lane.sink.id kind "close acknowledgement" none err
      | none ↦ rest
    ]

unfoldable pub fan_out_loop :
    (from_id kind : String) → Cause → List Event → List Lane → Option DeliveryError
unfolding close_all offer
fan_out_loop from_id kind ending [] lanes =
    if is_eof ending
    then close_all from_id kind lanes
    else edge from_id "sinks" kind "recv" none ending
fan_out_loop from_id kind ending (e ∷ es) lanes = elim (offer from_id kind e lanes) [
  | stuck err ↦ err
  | going lanes' ↦ fan_out_loop from_id kind ending es lanes'
]

unfoldable pub fan_out : (from_id kind : String) → Incoming → List SinkStream → Option DeliveryError
unfolding fan_out_loop
fan_out from_id kind from sinks =
    fan_out_loop from_id kind from.ending from.events (map new_lane sinks)
