-- ===== src/Runner/Lifecycle.antt =====
-- The steps of Run of internal/runner/pipeline_runner.go with shutdown, in order. What each step
-- returns is a parameter, and the choice at the end of delivery is `conclude`. The errors of
-- StopAll, of the control plane's Stop and of a status update are only logged, and shutdown returns
-- none. Printing, monitoring and the log aggregation are left out.
pub mod Closing
pub mod Cleanup
use flowctl.Prelude.{
  String, Bool, true, false, ◌||◌, ◌&&◌, not, Option, none, some, List, [], ◌∷◌, ◌++◌,
  if◌then◌else◌, is_some,
}
use flowctl.Proto.Enums.{RunStatus, failed, running as run_running}
use flowctl.Runner.Stream.{Cause, DeliveryError, is_canceled}
use flowctl.Runner.Wiring.{WireError, at_edge}
use flowctl.Runner.Group.{
  Wake, terminal, signal, context_done, Ending, blocked, concluded, conclude,
}

-- What Run does, step by step.
pub data Action : Type 0 where
  start_plane sync_endpoint await_plane stop_plane : Action
  create_run start_components await_components enrich wire wait_delivery : Action
  stop_streams mark_failure stop_components cancel unregister_stopper : Action
  -- updateRunStatusWithError, and whether the control plane recorded the status.
  update_run : RunStatus → Bool → Action

pub data RunError : Type 0 where
  plane_not_started endpoint_not_synced plane_not_ready : RunError
  not_launched not_registered : RunError
  not_wired : WireError → RunError
  delivery_failed : DeliveryError → RunError
  interrupted : RunError

-- How each step goes. `records` says whether the update to a status reaches the control plane,
-- which it does not where the connection fails or the run's context is cancelled; `wire` and
-- `streams` are the errors of WireAll and of the edges' Stop after it.
pub record Outcomes : Type 0 where
  pub embedded : Bool
  pub registration_only : Bool
  pub plane_starts : Bool
  pub endpoint_syncs : Bool
  pub plane_ready : Bool
  pub components_start : Bool
  pub components_register : Bool
  pub wire : Option WireError
  pub streams : Option DeliveryError
  pub wake : Wake
  pub stopped : Bool
  pub delivery : Option DeliveryError
  pub records : RunStatus → Bool

pub data Result : Type 0 where
  returned : Option RunError → Result
  waits : Result

-- The actions so far, and the result.
abbrev pub Run : Type 0
Run = List Action × Result

abbrev pub then_run : List Action → Run → Run
then_run actions (more, result) = (actions ++ more, result)

unfoldable pub shutdown : (embedded : Bool) → List Action
shutdown embedded =
    (stop_components ∷ cancel ∷ [])
    ++ (if embedded then stop_plane ∷ unregister_stopper ∷ [] else [])

abbrev pub fails_with : (RunStatus → Bool) → (embedded : Bool) → RunError → Run
fails_with records embedded e =
    (update_run failed (records failed) ∷ shutdown embedded, returned (some e))

-- The error of an edge that failed before is kept rather than a cancellation.
unfoldable pub wiring_error : WireError → Option DeliveryError → WireError
wiring_error (at_edge e) (some earlier) = if is_canceled e.err then at_edge earlier else at_edge e
wiring_error e streams = e

-- Only a signal makes a clean stop an error.
unfoldable pub clean_result : Wake → Result
clean_result signal = returned (some interrupted)
clean_result terminal = returned none
clean_result context_done = returned none

-- The end of Run, once the components are wired.
unfoldable pub finish_run : (RunStatus → Bool) → (embedded : Bool) → Wake → Ending → Run
unfolding shutdown clean_result
finish_run records embedded wake blocked = ([], waits)
finish_run records embedded wake (concluded status (some e)) = (
  (mark_failure ∷ update_run status (records status) ∷ [])
      ++ (shutdown embedded ++ (stop_streams ∷ [])),
  returned (some (delivery_failed e)),
)
finish_run records embedded wake (concluded status none) = (
  (update_run status (records status) ∷ []) ++ (shutdown embedded ++ (stop_streams ∷ [])),
  clean_result wake,
)

unfoldable pub supervise : Outcomes → Run
unfolding finish_run
supervise o = then_run (update_run run_running (o.records run_running) ∷ wait_delivery ∷ []) (
    finish_run o.records o.embedded o.wake
      (conclude o.wake o.stopped o.registration_only o.delivery))

-- WireAll has returned.
unfoldable pub after_wiring : Outcomes → Option WireError → Run
unfolding supervise wiring_error
after_wiring o none = supervise o
after_wiring o (some e) =
    then_run (stop_streams ∷ mark_failure ∷ [])
      (fails_with o.records o.embedded (not_wired (wiring_error e o.streams)))

unfoldable pub wire_components : Outcomes → Run
unfolding after_wiring
wire_components o =
    if o.registration_only then supervise o else then_run (wire ∷ []) (after_wiring o o.wire)

-- The components have registered, or not.
unfoldable pub after_registration : Outcomes → Run
unfolding wire_components shutdown
after_registration o =
    if not o.components_register
    then fails_with o.records o.embedded not_registered
    else then_run (enrich ∷ []) (wire_components o)

-- The components have been started, or not all of them.
unfoldable pub after_start : Outcomes → Run
unfolding after_registration shutdown
after_start o =
    if not o.components_start
    then fails_with o.records o.embedded not_launched
    else then_run (await_components ∷ []) (after_registration o)

unfoldable pub launch_components : Outcomes → Run
unfolding after_start
launch_components o = then_run (create_run ∷ start_components ∷ []) (after_start o)

-- The control plane has been asked whether it is ready. An embedded one that is not is stopped.
unfoldable pub after_plane : Outcomes → Run
unfolding launch_components
after_plane o =
    if not o.plane_ready
    then (if o.embedded then stop_plane ∷ [] else [], returned (some plane_not_ready))
    else launch_components o

unfoldable pub after_sync : Outcomes → Run
unfolding after_plane
after_sync o =
    if not o.endpoint_syncs
    then (stop_plane ∷ [], returned (some endpoint_not_synced))
    else then_run (await_plane ∷ []) (after_plane o)

unfoldable pub after_plane_start : Outcomes → Run
unfolding after_sync
after_plane_start o =
    if not o.plane_starts
    then ([], returned (some plane_not_started))
    else then_run (sync_endpoint ∷ []) (after_sync o)

-- With an embedded control plane, Run starts it first.
unfoldable pub run : Outcomes → Run
unfolding after_plane_start after_plane
run o =
    if o.embedded
    then then_run (start_plane ∷ []) (after_plane_start o)
    else then_run (await_plane ∷ []) (after_plane o)
