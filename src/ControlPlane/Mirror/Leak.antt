-- ===== src/ControlPlane/Mirror/Leak.antt =====
-- A registration through the wrapper (ControlPlaneWrapper.Register) and the unregistration after it.
use flowctl.Prelude.{ℕ, String, ◌≡◌, refl, ap, ◌∙◌, true, ◌≢◌, none, some, eq_iff, arith}
use flowctl.Prelude.Map.{lookup, lookup-erase}
use flowctl.Proto.Enums.{ComponentType}
use flowctl.Proto.Messages.{ComponentInfo, ServiceInfo}
use flowctl.Storage.Types
use flowctl.Storage.Interface.{ServiceStorage, IsReliable}
use flowctl.ControlPlane.State.{Server}
use flowctl.ControlPlane.Registry.{new_service, stored, register_component, unregister_component}
use flowctl.ControlPlane.Wrapper.{register_request, register}

-- The component that the wrapper registers is named by the request's component identifier.
wrapped_id :
    (req : ServiceInfo)
    → req.component_id ≢ ""
    → (info : ComponentInfo) × ((register_request req).component ≡ some info)
      × (info.id ≡ req.component_id)
unfolding register_request
wrapped_id req h = (_, refl, ground (arith, eq_iff req.component_id ""))

module _ (st : ServiceStorage) (rel : IsReliable st) where
  open st use {State}

  -- If a service registers through the wrapper with a component identifier that the storage accepts
  -- and that is neither empty nor its service identifier, and then unregisters by its service
  -- identifier, the registry does not know it and the storage holds it still.
  pub wrapper_leak :
      (type_name : ComponentType → String) (clock now : ℕ) (req : ServiceInfo) (s : Server State)
      (d : State)
      → s.storage ≡ some d
      → rel.accepts req.component_id ≡ true
      → req.component_id ≢ ""
      → req.component_id ≢ req.service_id
      → (lookup req.service_id
            (unregister_component st req.service_id
              (register st type_name clock now req s).0).0.services
          ≡ none)
        × ((d' : State) × (x : Types.ServiceInfo) × ((unregister_component st req.service_id
                (register st type_name clock now req s).0).0.storage
              ≡ some d')
            × (rel.service d' req.component_id ≡ some x))
  unfolding register unregister_component register_component register_request wrapped_id
  wrapper_leak type_name clock now req s d on fine named other =
      let (info, asked, same_id) = wrapped_id req named in
      let x = stored (new_service now info) in
      let d₁ = (st.register_service x d).0 in
      let d₂ = (st.unregister_service req.service_id d₁).0 in
      (
        ground (
          arith,
          lookup-erase req.service_id req.service_id
              (register st type_name clock now req s).0.services,
          eq_iff req.service_id req.service_id,
        ),
        (
          d₂,
          x,
          rw on refl,
          ground (
            arith,
            rel.service-unregister req.service_id d₁ req.component_id,
            rel.service-register x d req.component_id (ap rel.accepts same_id ∙ fine),
            eq_iff req.service_id req.component_id,
            eq_iff info.id req.component_id,
            same_id,
          ),
        ),
      )
