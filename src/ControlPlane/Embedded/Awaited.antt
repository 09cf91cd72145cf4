-- ===== src/ControlPlane/Embedded/Awaited.antt =====
-- WaitForComponent of internal/controlplane/embedded_server.go finds what RegisterComponent of
-- internal/api/control_plane.go has registered.
use flowctl.Prelude.{
  ℕ, ◌≡◌, ◌<◌, refl, ap, ◌∙◌, String, true, none, some, List, [], ◌∷◌, arith, map, select,
  Bool-cases, inl, inr, any, str_eq, eq_refl, ltb,
}
use flowctl.Prelude.Map.{StringMap, lookup, lookup-insert}
use flowctl.Proto.Enums.{ComponentType}
use flowctl.Proto.Messages.{ComponentInfo, RegisterRequest}
use flowctl.Storage.Interface.{ServiceStorage}
use flowctl.ControlPlane.State.{Service, Server}
use flowctl.ControlPlane.Registry.{
  listed, list_components, register_component, new_service, assigned_id,
}
use flowctl.ControlPlane.Embedded.{
  EmbeddedControlPlane, is_live, no_filters, get_service_list, is_awaited, wait_for_component,
}
use flowctl.ControlPlane.Embedded.Unseen.{some_eq}

any-listed :
    (id k : String) (service : Service) (m : StringMap Service)
    → lookup k m ≡ some service
    → listed no_filters service ≡ true
    → is_awaited id service.status ≡ true
    → any
        (is_awaited id)
        (map (λ (e : String × Service). e.1.status) (select (λ e. listed no_filters e.1) m))
      ≡ true
unfolding lookup
any-listed id k service [] found there awaited = cc
any-listed id k service ((name, x) ∷ m) found there awaited = elim (Bool-cases (str_eq name k)) [
  | inl same ↦
      let e = some_eq (rw same at found) in
      rw
        (ap (listed no_filters) e ∙ there, ap (λ (s : Service). is_awaited id s.status) e ∙ awaited)
        refl
  | inr other ↦
      let rest = any-listed id k service m (rw other at found) there awaited in
      elim (Bool-cases (listed no_filters x)) [
        | inl shown ↦ rw (shown, rest) (ground arith)
        | inr hidden ↦ rw hidden rest
      ]
]

module _ (st : ServiceStorage) (visit : StringMap Service → StringMap Service)
    (e : EmbeddedControlPlane (st.State)) (server : Server (st.State))
    (type_name : ComponentType → String) (clock now : ℕ) (req : RegisterRequest)
    (info : ComponentInfo) where
  registered_service :
      req.component ≡ some info
      → lookup
          (assigned_id type_name clock req.component_id info)
          (register_component st type_name clock now req server).0.services
        ≡ some (new_service now info)
  unfolding register_component
  registered_service named =
      let id = assigned_id type_name clock req.component_id info in
      rw (named, register_component)
        (rw (lookup-insert id id (new_service now info) server.services, eq_refl id) refl)

  -- A component that has registered with a running control plane, under whatever identifier, is
  -- found by the next round of a wait for it that is before the deadline, if the visit of the
  -- services yields each.
  pub registered_is_awaited :
      (time deadline : ℕ) (rounds : List (ℕ × EmbeddedControlPlane (st.State)))
      → ((m : StringMap Service) (id : String) → lookup id (visit m) ≡ lookup id m)
      → is_live e ≡ true
      → req.component ≡ some info
      → time < deadline
      → wait_for_component st visit info.id deadline (
          (
            time,
            record e {
              control_plane = some (register_component st type_name clock now req server).0;
            },
          )
          ∷ rounds)
        ≡ some none
  unfolding wait_for_component get_service_list list_components new_service listed
  registered_is_awaited time deadline rounds visits live named early =
      let early' : ltb time deadline ≡ true = ground arith in
      let services = (register_component st type_name clock now req server).0.services in
      let found =
        any-listed info.id (assigned_id type_name clock req.component_id info)
          (new_service now info) (visit services) (visits services _ ∙ registered_service named)
          refl (rw (eq_refl info.id) refl) in
      rw (early', live, wait_for_component, get_service_list) (rw found refl)
