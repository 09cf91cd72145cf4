-- ===== src/ControlPlane/Mirror.antt =====
-- The relation between the registry and the storage, for a storage whose writes succeed.
pub mod Rounds
pub mod Leak
pub mod Restart
use flowctl.Prelude.{
  ℕ, String, ◌≡◌, refl, ◌≢◌, sym, ap, ◌∙◌, Bool, true, false, Option, none, some, str_eq, eq_iff,
  eq_refl, arith, if◌then◌else◌, Option-cases, Bool-cases, inl, inr, [], ◌∷◌,
}
use flowctl.Prelude.Map.{
  StringMap, lookup, insert, erase, lookup-insert, lookup-erase, HasUniqueKeys,
  insert-HasUniqueKeys, erase-HasUniqueKeys,
}
use flowctl.Proto.Enums.{ComponentType}
use flowctl.Proto.Messages.{ComponentInfo, RegisterRequest, HeartbeatRequest}
use flowctl.Storage.Types.{ServiceInfo}
use flowctl.Storage.Interface.{ServiceStorage, IsReliable, updated}
use flowctl.ControlPlane.State.{Service, Server}
use flowctl.ControlPlane.Registry.{
  assigned_id, new_service, stored, beat, beat_stored, persist, register_component, heartbeat,
  unregister_component,
}
use flowctl.ControlPlane.Janitor.{
  expires, mark_unhealthy, mark_stored_unhealthy, check_storage, check_services,
  check_service_health,
}
use flowctl.ControlPlane.Janitor.Expiry.{checked, checked_entry, lookup-check_services}

abbrev pub stored_entry : Option Service → Option ServiceInfo
stored_entry none = none
stored_entry (some service) = some (stored service)

module _ (st : ServiceStorage) (rel : IsReliable st) where
  open st use {State}

  -- The storage holds the services of the map, under the same identifiers.
  abbrev Agrees : State → StringMap Service → Type 0
  Agrees d m = (j : String) → rel.service d j ≡ stored_entry (lookup j m)

  abbrev pub Mirrors : Option State → StringMap Service → Type 0
  Mirrors none m = Unit
  Mirrors (some d) m = Agrees d m

  -- Each key of the registry has one entry, and the storage, if there is one, mirrors the registry.
  pub record IsMirrored (s : Server State) : Type 0 where
    pub unique : HasUniqueKeys s.services
    pub same : Mirrors s.storage s.services

  persist-Mirrors :
      {E : Type 0} (op : State → State × E) (o : Option State) (m m' : StringMap Service)
      → ((d : State) → Agrees d m → Agrees (op d).0 m')
      → Mirrors o m
      → Mirrors (persist op o) m'
  persist-Mirrors op none m m' keep h = tt
  persist-Mirrors op (some d) m m' keep h = keep d h

  register-Agrees :
      (service : Service) (d : State) (m : StringMap Service)
      → rel.accepts service.info.id ≡ true
      → Agrees d m
      → Agrees (st.register_service (stored service) d).0 (insert service.info.id service m)
  register-Agrees service d m fine h j = ground (
    arith,
    rel.service-register (stored service) d j fine,
    lookup-insert service.info.id j service m,
    h j,
    eq_iff service.info.id j,
  )

  beat-Agrees :
      (now : ℕ) (req : HeartbeatRequest) (service : Service) (d : State) (m : StringMap Service)
      → lookup req.service_id m ≡ some service
      → Agrees d m
      → Agrees
          (st.update_service req.service_id (beat_stored now req) d).0
          (insert req.service_id (beat now req service) m)
  unfolding beat beat_stored
  beat-Agrees now req service d m present h j = ground (
    arith,
    rel.service-update req.service_id (beat_stored now req) d j (λ x. refl),
    lookup-insert req.service_id j (beat now req service) m,
    h req.service_id,
    h j,
    eq_iff req.service_id j,
  )

  unregister-Agrees :
      (id : String) (d : State) (m : StringMap Service)
      → Agrees d m
      → Agrees (st.unregister_service id d).0 (erase id m)
  unregister-Agrees id d m h j =
      ground (arith, rel.service-unregister id d j, lookup-erase id j m, h j, eq_iff id j)

  register-IsMirrored :
      (type_name : ComponentType → String) (clock now : ℕ) (req : RegisterRequest)
      (info : ComponentInfo) (s : Server State)
      → req.component ≡ some info
      → assigned_id type_name clock req.component_id info ≡ info.id
      → rel.accepts info.id ≡ true
      → IsMirrored s
      → IsMirrored (register_component st type_name clock now req s).0
  unfolding register_component new_service
  register-IsMirrored type_name clock now req info s e same_id fine h =
      rw (e, register_component)
        (rw same_id (record {
          unique = insert-HasUniqueKeys info.id (new_service now info) s.services h.unique;
          same =
              persist-Mirrors (st.register_service (stored (new_service now info))) s.storage
                s.services (insert info.id (new_service now info) s.services)
                (λ d. register-Agrees (new_service now info) d s.services fine) h.same;
        }))

  heartbeat-IsMirrored :
      (now : ℕ) (req : HeartbeatRequest) (s : Server State)
      → IsMirrored s
      → IsMirrored (heartbeat st now req s).0
  unfolding heartbeat
  heartbeat-IsMirrored now req s h = elim (Option-cases (lookup req.service_id s.services)) [
    | inl absent ↦ rw (absent, heartbeat) h
    | inr (service, present) ↦
        rw (present, heartbeat)
          (record {
            unique = insert-HasUniqueKeys req.service_id (beat now req service) s.services h.unique;
            same =
                persist-Mirrors (st.update_service req.service_id (beat_stored now req)) s.storage
                  s.services (insert req.service_id (beat now req service) s.services)
                  (λ d. beat-Agrees now req service d s.services present) h.same;
          })
  ]

  unregister-IsMirrored :
      (id : String) (s : Server State) → IsMirrored s → IsMirrored (unregister_component st id s).0
  unfolding unregister_component
  unregister-IsMirrored id s h = record {
    unique = erase-HasUniqueKeys id s.services h.unique;
    same =
        persist-Mirrors (st.unregister_service id) s.storage s.services (erase id s.services)
          (λ d. unregister-Agrees id d s.services) h.same;
  }
