-- ===== src/Runner/Stream.antt =====
-- internal/runner/stream_orchestrator.go: the errors of an edge, the streams between components, and
-- the tests on inputs and event types. A gRPC stream is outside the repository: it stands as
-- functions of the events that were sent on it before, and what is received from one as the events
-- up to its end and the error that ends it.
use flowctl.Prelude.{ℕ, String, Bool, true, false, Option, none, some, List, [], ◌∷◌, str_eq, any}
use flowctl.Prelude.Int.{ℤ}
use flowctl.Prelude.Map.{StringMap, read}

pub record Event : Type 0 where
  pub id : String
  pub type : String

-- The gRPC status codes that the code tells apart; `other` is any other code.
pub data Code : Type 0 where
  canceled deadline_exceeded : Code
  other : ℕ → Code

-- The error under an edge's error. `expected` is the wrapping by "expected %d: %w".
pub data Cause : Type 0 where
  eof unexpected_eof context_canceled context_deadline : Cause
  status : Code → Cause
  unknown : String → Cause
  missing_response : ℕ → Cause
  mismatch : (sent : ℕ) (acknowledged failed : ℤ) (errors : ℕ) → Cause
  expected : ℕ → Cause → Cause

-- DeliveryError. The event's identifier and type are those of `event`, if there is one; the pipeline's
-- name and the run's identifier, the same in every error of a run, are left out.
pub record DeliveryError : Type 0 where
  pub from : String
  pub to : String
  pub kind : String
  pub operation : String
  pub event : Option Event
  pub err : Cause

-- errors.Is(err, context.Canceled) || status.Code(err) == codes.Canceled
unfoldable pub is_canceled : Cause → Bool
is_canceled context_canceled = true
is_canceled (status Code.canceled) = true
is_canceled (expected n c) = is_canceled c
is_canceled _ = false

-- status.Code(err) == codes.DeadlineExceeded
unfoldable pub is_deadline : Cause → Bool
is_deadline (status Code.deadline_exceeded) = true
is_deadline (expected n c) = is_deadline c
is_deadline _ = false

abbrev pub is_eof : Cause → Bool
is_eof eof = true
is_eof _ = false

-- errors.Is(err, io.EOF), which looks through a wrapping.
unfoldable pub wraps_eof : Cause → Bool
wraps_eof eof = true
wraps_eof (expected n c) = wraps_eof c
wraps_eof _ = false

-- What a stream yields: its events, and then the error that ends it, `eof` at a regular end.
pub record Incoming : Type 0 where
  pub events : List Event
  pub ending : Cause

-- The sending side of a stream to a processor.
pub record ProcessStream : Type 0 where
  pub send : List Event → Event → Option Cause
  pub close_send : List Event → Option Cause

pub record ConsumeResponse : Type 0 where
  pub events_consumed : ℤ
  pub events_failed : ℤ
  pub errors : ℕ

-- The answer of CloseAndRecv: an error, no response, or one.
pub data CloseReply : Type 0 where
  failed : Cause → CloseReply
  missing : CloseReply
  response : ConsumeResponse → CloseReply

pub record SinkStream : Type 0 where
  pub id : String
  pub accepted : List String
  pub send : List Event → Event → Option Cause
  pub close_and_recv : List Event → CloseReply

unfoldable pub source_bounded : StringMap String → Bool
source_bounded env = str_eq (read "FLOWCTL_SOURCE_BOUNDED" env) "true"

unfoldable pub has_input : List String → String → Bool
has_input inputs id = any (λ input. str_eq input id) inputs

-- No event types at all accept every event.
unfoldable pub accepts : List String → String → Bool
accepts [] event_type = true
accepts (t ∷ types) event_type = any (λ t'. str_eq t' event_type) (t ∷ types)

-- sourceReceiver.Recv: what the end of a source's stream is taken for, by the error of the context
-- (`none` while it is live) and the source's boundedness.
unfoldable pub received_ending : Option Cause → Bool → Cause → Cause
received_ending (some e) bounded eof = e
received_ending none true eof = eof
received_ending none false eof = unexpected_eof
received_ending context bounded ending = ending

unfoldable pub source_receiver : Option Cause → Bool → Incoming → Incoming
unfolding received_ending
source_receiver context bounded from = record from {
  ending = received_ending context bounded from.ending;
}
