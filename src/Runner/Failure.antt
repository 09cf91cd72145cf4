-- ===== src/Runner/Failure.antt =====
-- What a failed delivery leaves in the control plane: markDeliveryFailure and deliveryFailureRecord of
-- internal/runner/pipeline_runner.go. The call of the control plane is its handler; the names of the gRPC
-- codes and the encoding of a map as JSON are parameters.
pub mod Health
use flowctl.Prelude.{
  ℕ, String, Bool, true, false, ◌||◌, Option, none, some, List, [], ◌∷◌, str_eq, if◌then◌else◌, any,
}
use flowctl.Prelude.Map.{StringMap, insert}
use flowctl.Proto.Enums.{HealthStatus}
use flowctl.Proto.Messages.{HeartbeatRequest}
use flowctl.Storage.Interface.{ServiceStorage}
use flowctl.ControlPlane.State.{Server}
use flowctl.ControlPlane.Registry.{heartbeat}
use flowctl.Runner.Stream.{
  Code, other, Cause, unexpected_eof, status, expected, DeliveryError, wraps_eof,
}

-- The operations whose failure is the target's.
abbrev pub target_operations : List String
target_operations =
    "send" ∷ "close" ∷ "close acknowledgement" ∷ "connect" ∷ "registration" ∷ "open" ∷ []

unfoldable pub is_target_operation : String → Bool
is_target_operation operation = any (λ o. str_eq o operation) target_operations

unfoldable pub failed_component : DeliveryError → String
unfolding is_target_operation
failed_component e =
    let id = if is_target_operation e.operation then e.to else e.from in
    if str_eq id "sinks" then e.from else id

-- status.Code, which looks through a wrapping; an error without a code is Unknown, which is 2.
unfoldable pub cause_code : Cause → Code
cause_code (status c) = c
cause_code (expected n c) = cause_code c
cause_code _ = other 2

-- errors.Is(err, io.ErrUnexpectedEOF)
unfoldable pub wraps_unexpected_eof : Cause → Bool
wraps_unexpected_eof unexpected_eof = true
wraps_unexpected_eof (expected n c) = wraps_unexpected_eof c
wraps_unexpected_eof _ = false

module _ (code_name : Code → String) where
  unfoldable pub failure_request : String → DeliveryError → HeartbeatRequest
  unfolding failed_component cause_code
  failure_request run_id e = record {
    service_id = failed_component e;
    status = HealthStatus.unhealthy;
    metrics =
        ("delivery_run_id", run_id)
        ∷ ("delivery_edge", e.kind)
        ∷ ("delivery_operation", e.operation)
        ∷ ("delivery_cause", code_name (cause_code e.err))
        ∷ [];
  }

  unfoldable pub mark_delivery_failure :
      (st : ServiceStorage) → ℕ → String → DeliveryError → Server (st.State) → Server (st.State)
  unfolding failure_request heartbeat
  mark_delivery_failure st now run_id e s = (heartbeat st now (failure_request run_id e) s).0

  unfoldable pub failure_cause : Cause → String
  unfolding cause_code wraps_unexpected_eof wraps_eof
  failure_cause err =
      if wraps_unexpected_eof err
      then "UNEXPECTED_EOF"
      else if wraps_eof err
      then "EOF"
      else code_name (cause_code err)

  -- The fields of the error that the run is recorded with.
  unfoldable pub failure_fields : DeliveryError → StringMap String
  unfolding failure_cause is_target_operation
  failure_fields e =
      ("component", (if is_target_operation e.operation then e.to else e.from))
      ∷ ("from", e.from)
      ∷ ("to", e.to)
      ∷ ("edge", e.kind)
      ∷ ("operation", e.operation)
      ∷ ("cause", failure_cause e.err)
      ∷ []

  unfoldable pub delivery_failure_record :
      (StringMap String → String) → Option DeliveryError → String
  unfolding failure_fields
  delivery_failure_record encode none = ""
  delivery_failure_record encode (some e) = encode (failure_fields e)
