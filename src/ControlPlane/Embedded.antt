-- ===== src/ControlPlane/Embedded.antt =====
-- internal/controlplane/embedded_server.go: the control plane inside a pipeline runner. The listener is a
-- function from the address and the port to the port that it listens on. A service that is listed has a
-- component, as the server sets it.
pub mod Unseen
pub mod Awaited
use flowctl.Prelude.{
  ℕ, ◌+◌, String, Bool, true, false, ◌&&◌, ◌||◌, not, Option, none, some, List, [], ◌∷◌, ◌++◌,
  str_eq, ltb, ◌==◌, if◌then◌else◌, any, map,
}
use flowctl.Prelude.Map.{StringMap}
use flowctl.Proto.Enums.{HealthStatus, ComponentType, health_eq}
use flowctl.Proto.Messages.{ComponentStatus, ListComponentsRequest}
use flowctl.Storage.Interface.{ServiceStorage}
use flowctl.ControlPlane.State.{
  Service, Server, ServerError, Reply, ok, err, fault, new_control_plane_server,
}
use flowctl.ControlPlane.Registry.{list_components}
use flowctl.ControlPlane.Janitor.{
  set_heartbeat_ttl, set_janitor_interval, start, close, register_run_stopper,
  unregister_run_stopper,
}

-- The settings; a TTL or an interval of zero keeps the server's default.
pub record Config (S : Type 0) : Type 0 where
  pub heartbeat_ttl : ℕ
  pub janitor_interval : ℕ
  pub storage : Option S

pub record EmbeddedControlPlane (S : Type 0) : Type 0 where
  pub control_plane : Option (Server S)
  pub address : String
  pub port : ℕ
  pub started : Bool
  pub stopped : Bool
  pub config : Config S

pub data PlaneError : Type 0 where
  already_started not_running : PlaneError
  no_listener : (port : ℕ) → PlaneError
  plane_failed : ServerError → PlaneError
  plane_fault : PlaneError
  component_timeout : String → List String → PlaneError

unfoldable pub new_embedded_control_plane :
    {S : Type 0} → String → ℕ → Config S → EmbeddedControlPlane S
new_embedded_control_plane address port config = record {
  control_plane = none;
  address = address;
  port = port;
  started = false;
  stopped = false;
  config = config;
}

abbrev pub is_positive : ℕ → Bool
is_positive n = ltb 0 n

-- The new server with the settings.
unfoldable pub configured : {S : Type 0} → Config S → Server S
configured config =
    let server = new_control_plane_server config.storage in
    let timed =
      if is_positive config.heartbeat_ttl
      then set_heartbeat_ttl config.heartbeat_ttl server
      else server in
    if is_positive config.janitor_interval
    then set_janitor_interval config.janitor_interval timed
    else timed

abbrev pub is_live : {S : Type 0} → EmbeddedControlPlane S → Bool
is_live e = e.started && not e.stopped

-- A request with no field set.
abbrev pub no_filters : ListComponentsRequest
no_filters = record { type_filter = ComponentType.unspecified; include_unhealthy = false }

-- What the loop of WaitForComponent looks for.
unfoldable pub is_awaited : String → ComponentStatus → Bool
is_awaited id c = str_eq c.component.id id && health_eq c.status HealthStatus.healthy

module _ (st : ServiceStorage) where
  open st use {State}

  unfoldable pub start_plane :
      (String → ℕ → Option ℕ)
      → EmbeddedControlPlane State
      → EmbeddedControlPlane State × Option PlaneError
  unfolding configured start
  start_plane listen e =
      if e.started then (e, some already_started) else elim (listen e.address e.port) [
        | none ↦ (e, some (no_listener e.port))
        | some port ↦
            let (server, reply) = start st (configured e.config) in
            let made = record e { port = port; control_plane = some server } in
            elim reply [
              | ok u ↦ (record made { started = true }, none)
              | err x ↦ (made, some (plane_failed x))
              | fault ↦ (made, some plane_fault)
            ]
      ]

  -- The error of the server's Close is logged.
  unfoldable pub stop_plane : EmbeddedControlPlane State → EmbeddedControlPlane State
  unfolding close
  stop_plane e =
      if is_live e
      then elim e.control_plane [
        | none ↦ record e { stopped = true }
        | some server ↦ record e { stopped = true; control_plane = some (close st server).0 }
      ]
      else e

  unfoldable pub get_service_list :
      (StringMap Service → StringMap Service)
      → EmbeddedControlPlane State
      → Option (List ComponentStatus)
  unfolding list_components
  get_service_list visit e =
      if is_live e
      then elim e.control_plane [
        | none ↦ none
        | some server ↦ elim (list_components st visit no_filters server) [
          | ok components ↦ some components
          | err x ↦ none
          | fault ↦ none
        ]
      ]
      else none

  unfoldable pub found_components : Option (List ComponentStatus) → List String
  found_components none = []
  found_components (some components) = map (λ (c : ComponentStatus). c.component.id) components

  -- The loop of WaitForComponent, on what its rounds read: the time, and then the control plane. The first
  -- round that is not before the deadline reports what is there; `none` is a list that has none such.
  unfoldable pub wait_for_component :
      (StringMap Service → StringMap Service)
      → String
      → (deadline : ℕ) → List (ℕ × EmbeddedControlPlane State)
      → Option (Option PlaneError)
  unfolding get_service_list found_components is_awaited
  wait_for_component visit id deadline [] = none
  wait_for_component visit id deadline ((now, e) ∷ rounds) =
      let rest = wait_for_component visit id deadline rounds in
      if ltb now deadline
      then elim (get_service_list visit e) [
        | none ↦ rest
        | some components ↦ if any (is_awaited id) components then some none else rest
      ]
      else some (some (component_timeout id (found_components (get_service_list visit e))))

-- RegisterRunStopper and UnregisterRunStopper, which do nothing before there is a server.
unfoldable pub plane_run_stopper :
    {S : Type 0} → String → Option ℕ → EmbeddedControlPlane S → EmbeddedControlPlane S
plane_run_stopper id stopper e = elim e.control_plane [
  | none ↦ e
  | some server ↦ record e { control_plane = some (register_run_stopper id stopper server) }
]

unfoldable pub drop_run_stopper :
    {S : Type 0} → String → EmbeddedControlPlane S → EmbeddedControlPlane S
drop_run_stopper id e = elim e.control_plane [
  | none ↦ e
  | some server ↦ record e { control_plane = some (unregister_run_stopper id server) }
]

-- The numbers of a status's wire form are a parameter. IsHealthy of internal/runner/pipeline_runner.go,
-- which compares with one, and the counts of logPipelineStatus there, which compares with two.
module _ (number : HealthStatus → ℕ) where
  unfoldable pub is_pipeline_healthy : Option (List ComponentStatus) → Bool
  is_pipeline_healthy none = false
  is_pipeline_healthy (some []) = true
  is_pipeline_healthy (some (c ∷ cs)) =
      let rest = is_pipeline_healthy (some cs) in if number c.status == 1 then rest else false

  unfoldable pub healthy_count : List ComponentStatus → ℕ
  healthy_count [] = 0
  healthy_count (c ∷ cs) =
      let rest = healthy_count cs in if number c.status == 2 then rest + 1 else rest

  unfoldable pub unhealthy_components : List ComponentStatus → List String
  unhealthy_components [] = []
  unhealthy_components (c ∷ cs) =
      let rest = unhealthy_components cs in
      if number c.status == 2 then rest else c.component.id ∷ rest
