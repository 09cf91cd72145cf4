-- ===== src/ControlPlane/Embedded/Unseen.antt =====
-- What the runner sees of the health of its components through the embedded control plane, in
-- internal/controlplane/embedded_server.go and internal/runner/pipeline_runner.go.
use flowctl.Prelude.{
  ℕ, ◌≡◌, ap, String, true, some, List, [], ◌∷◌, arith, All, map, length, select, Bool-cases,
  Option-cases, inl, inr, if◌then◌else◌, ◌==◌,
}
use flowctl.Prelude.Map.{StringMap}
use flowctl.Proto.Enums.{HealthStatus, health_eq}
use flowctl.Proto.Messages.{ComponentStatus}
use flowctl.Storage.Interface.{ServiceStorage}
use flowctl.ControlPlane.State.{Service}
use flowctl.ControlPlane.Registry.{listed, list_components}
use flowctl.ControlPlane.Embedded.{
  EmbeddedControlPlane, is_live, no_filters, get_service_list, is_pipeline_healthy, healthy_count,
  unhealthy_components,
}

pub some_eq : {A : Type 0} {a b : A} → some a ≡ some b → a ≡ b
some_eq h = cc

health_eq-healthy :
    (h : HealthStatus) → health_eq h HealthStatus.healthy ≡ true → h ≡ HealthStatus.healthy
health_eq-healthy h e = ground arith

healthy_listed :
    (service : Service)
    → listed no_filters service ≡ true
    → service.status.status ≡ HealthStatus.healthy
unfolding listed
healthy_listed service h = health_eq-healthy service.status.status (ground arith)

-- Only healthy services pass a request with no field set.
listed_healthy :
    (m : StringMap Service)
    → All
        (λ (c : ComponentStatus). c.status ≡ HealthStatus.healthy)
        (map (λ (e : String × Service). e.1.status) (select (λ e. listed no_filters e.1) m))
unfolding listed
listed_healthy [] = tt
listed_healthy ((id, service) ∷ m) = elim (Bool-cases (listed no_filters service)) [
  | inl there ↦ rw there (healthy_listed service there, listed_healthy m)
  | inr hidden ↦ rw hidden (listed_healthy m)
]

abbrev pub component_ids : List ComponentStatus → List String
component_ids cs = map (λ (c : ComponentStatus). c.component.id) cs

module _ (st : ServiceStorage) (visit : StringMap Service → StringMap Service) where
  get_service_list-healthy :
      (e : EmbeddedControlPlane (st.State)) (cs : List ComponentStatus)
      → get_service_list st visit e ≡ some cs
      → All (λ (c : ComponentStatus). c.status ≡ HealthStatus.healthy) cs
  unfolding get_service_list list_components
  get_service_list-healthy e cs h = elim (Bool-cases (is_live e)) [
    | inr down ↦ absurd (cc (rw (get_service_list, down) at h))
    | inl live ↦ elim (Option-cases e.control_plane) [
      | inl unmade ↦ absurd (cc (rw (get_service_list, live, unmade) at h))
      | inr (server, made) ↦
          let same = some_eq (rw (get_service_list, live, made) at h) in
          rw (← same) (listed_healthy (visit server.services))
    ]
  ]

module _ (number : HealthStatus → ℕ) where
  -- How the runner counts services that are all healthy.
  counted :
      (cs : List ComponentStatus)
      → All (λ (c : ComponentStatus). c.status ≡ HealthStatus.healthy) cs
      → (healthy_count number cs ≡ (if number HealthStatus.healthy == 2 then length cs else 0))
        × (unhealthy_components number cs
            ≡ (if number HealthStatus.healthy == 2 then [] else component_ids cs))
        × (is_pipeline_healthy number (some cs)
            ≡ (if number HealthStatus.healthy == 1 then true else length cs == 0))
  unfolding healthy_count unhealthy_components is_pipeline_healthy
  counted [] h = (ground arith, ground arith, ground arith)
  counted (c ∷ cs) (hc, h) =
      let own = ap number hc in
      let (count, names, healthy) = counted cs h in
      (rw own (ground arith), rw own (ground arith), rw own (ground arith))

  -- The services that the runner lists are all healthy, whatever the others are. With two as the
  -- number of the healthy status, the runner counts all of them as healthy and names none as
  -- unhealthy, and with any other it counts none and names all; IsHealthy holds if that number is
  -- one, and else only if there is no service.
  pub health_views :
      (st : ServiceStorage) (visit : StringMap Service → StringMap Service)
      (e : EmbeddedControlPlane (st.State)) (cs : List ComponentStatus)
      → get_service_list st visit e ≡ some cs
      → All (λ (c : ComponentStatus). c.status ≡ HealthStatus.healthy) cs
        × (healthy_count number cs ≡ (if number HealthStatus.healthy == 2 then length cs else 0))
        × (unhealthy_components number cs
            ≡ (if number HealthStatus.healthy == 2 then [] else component_ids cs))
        × (is_pipeline_healthy number (some cs)
            ≡ (if number HealthStatus.healthy == 1 then true else length cs == 0))
  health_views st visit e cs h =
      let healthy = get_service_list-healthy st visit e cs h in
      let (count, names, whole) = counted cs healthy in (healthy, count, names, whole)
