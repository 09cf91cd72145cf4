-- ===== src/ControlPlane/Mirror/Rounds.antt =====
-- The rounds of the janitor, and the runs of the server, seen from the storage and the registry.
use flowctl.Prelude.{
  ℕ, String, ◌≡◌, refl, sym, ap, ◌∙◌, Bool, true, false, Option, none, some, str_eq, eq_iff, arith,
  if◌then◌else◌, [], ◌∷◌,
}
use flowctl.Prelude.Map.{StringMap, lookup, HasUniqueKeys}
use flowctl.Proto.Enums.{ComponentType}
use flowctl.Proto.Messages.{ComponentInfo, RegisterRequest, HeartbeatRequest}
use flowctl.Storage.Types.{ServiceInfo}
use flowctl.Storage.Interface.{ServiceStorage, IsReliable, updated}
use flowctl.ControlPlane.State.{Service, Server}
use flowctl.ControlPlane.Registry.{assigned_id, register_component, heartbeat, unregister_component}
use flowctl.ControlPlane.Janitor.{
  expires, mark_unhealthy, mark_stored_unhealthy, check_storage, check_services,
  check_service_health,
}
use flowctl.ControlPlane.Janitor.Expiry.{checked, checked_entry, lookup-check_services}
use flowctl.ControlPlane.Mirror.{
  stored_entry, Mirrors, IsMirrored, register-IsMirrored, heartbeat-IsMirrored,
  unregister-IsMirrored,
}

-- What a round makes of a stored record, from the registry's entry for its identifier.
abbrev marked : ℕ → ℕ → Option Service → Option ServiceInfo → Option ServiceInfo
marked now ttl none o = o
marked now ttl (some service) o =
    if expires now ttl service then updated mark_stored_unhealthy o else o

lookup-check_services_unique :
    (st : ServiceStorage) (now ttl : ℕ) (m : StringMap Service)
    → HasUniqueKeys m
    → HasUniqueKeys (check_services st now ttl m)
unfolding check_services
lookup-check_services_unique st now ttl [] h = tt
lookup-check_services_unique st now ttl ((id, service) ∷ m) (new, h) = (
  ground (arith, lookup-check_services st now ttl id m),
  lookup-check_services_unique st now ttl m h,
)

marked-stored_entry :
    (now ttl : ℕ) (o : Option Service)
    → marked now ttl o (stored_entry o) ≡ stored_entry (checked_entry now ttl o)
unfolding checked mark_unhealthy mark_stored_unhealthy
marked-stored_entry now ttl none = refl
marked-stored_entry now ttl (some service) = ground arith

if_some :
    {A : Type 0} (b : Bool) (x y : A) → (if b then some x else some y) ≡ some (if b then x else y)
if_some true x y = refl
if_some false x y = refl

if_same : {A : Type 0} (b : Bool) (x : A) → (if b then x else x) ≡ x
if_same true x = refl
if_same false x = refl

module _ (st : ServiceStorage) (rel : IsReliable st) where
  open st use {State}

  -- The storage call that the loop makes for one entry.
  abbrev marked_storage : ℕ → ℕ → String → Service → State → State
  marked_storage now ttl id service d =
      if expires now ttl service then (st.update_service id mark_stored_unhealthy d).0 else d

  service-marked_storage :
      (now ttl : ℕ) (id : String) (service : Service) (d : State) (j : String)
      → rel.service (marked_storage now ttl id service d) j ≡ (
          if str_eq id j then marked now ttl (some service) (rel.service d id) else rel.service d j)
  unfolding mark_stored_unhealthy
  service-marked_storage now ttl id service d j =
      ground (arith, rel.service-update id mark_stored_unhealthy d j (λ x. refl), eq_iff id j)

  check_storage-none :
      (now ttl : ℕ) (m : StringMap Service) → check_storage st now ttl m none ≡ none
  unfolding check_storage
  check_storage-none now ttl [] = refl
  check_storage-none now ttl ((id, service) ∷ m) =
      rw (if_same {A = Option State} (expires now ttl service) none) (check_storage-none now ttl m)

  check_storage-some :
      (now ttl : ℕ) (m : StringMap Service) (d : State)
      → HasUniqueKeys m
      → (d' : State) × (check_storage st now ttl m (some d) ≡ some d')
        × ((j : String) → rel.service d' j ≡ marked now ttl (lookup j m) (rel.service d j))
  unfolding check_storage lookup
  check_storage-some now ttl [] d h = (d, refl, λ j. refl)
  check_storage-some now ttl ((id, service) ∷ m) d (new, h) =
      let d₁ = marked_storage now ttl id service d in
      let (d', done, reads) = check_storage-some now ttl m d₁ h in
      (
        d',
        rw (if_some (expires now ttl service) _ d) done,
        λ j.
            ground
              (arith, reads j, service-marked_storage now ttl id service d j, eq_iff id j, new),
      )

  check-Mirrors :
      (now ttl : ℕ) (o : Option State) (m : StringMap Service)
      → HasUniqueKeys m
      → Mirrors st rel o m
      → Mirrors st rel (check_storage st now ttl m o) (check_services st now ttl m)
  check-Mirrors now ttl none m u h = rw (check_storage-none now ttl m) tt
  check-Mirrors now ttl (some d) m u h =
      let (d', done, reads) = check_storage-some now ttl m d u in
      rw done (λ j.
        reads j
        ∙ rw (h j) (
            marked-stored_entry now ttl (lookup j m)
            ∙ ap stored_entry (sym (lookup-check_services st now ttl j m))))

  check-IsMirrored :
      (now : ℕ) (s : Server State)
      → IsMirrored st rel s
      → IsMirrored st rel (check_service_health st now s)
  unfolding check_service_health
  check-IsMirrored now s h = record {
    unique = lookup-check_services_unique st now s.heartbeat_ttl s.services h.unique;
    same = check-Mirrors now s.heartbeat_ttl s.storage s.services h.unique h.same;
  }

  -- A call that changes the registry. A registration names the component under its own identifier,
  -- which the storage accepts.
  pub data Step (s t : Server State) : Type 0 where
    registers :
        (type_name : ComponentType → String) (clock now : ℕ) (req : RegisterRequest)
        (info : ComponentInfo)
        → req.component ≡ some info
        → assigned_id type_name clock req.component_id info ≡ info.id
        → rel.accepts info.id ≡ true
        → t ≡ (register_component st type_name clock now req s).0
        → Step s t
    beats : (now : ℕ) (req : HeartbeatRequest) → t ≡ (heartbeat st now req s).0 → Step s t
    leaves : (id : String) → t ≡ (unregister_component st id s).0 → Step s t
    checks : (now : ℕ) → t ≡ check_service_health st now s → Step s t

  -- The states that a server reaches from a state.
  pub data Reach (s : Server State) : Server State → Type 0 where
    here : Reach s s
    next : {t u : Server State} → Reach s t → Step t u → Reach s u

  Step-IsMirrored : {s t : Server State} → Step s t → IsMirrored st rel s → IsMirrored st rel t
  Step-IsMirrored {s} (registers type_name clock now req info e same fine e') h =
      rw e' (register-IsMirrored st rel type_name clock now req info s e same fine h)
  Step-IsMirrored {s} (beats now req e) h = rw e (heartbeat-IsMirrored st rel now req s h)
  Step-IsMirrored {s} (leaves id e) h = rw e (unregister-IsMirrored st rel id s h)
  Step-IsMirrored {s} (checks now e) h = rw e (check-IsMirrored now s h)

  -- After any sequence of registrations, heartbeats, unregistrations and rounds of the janitor,
  -- from a state that its storage mirrors, the storage holds exactly the registry's services, each
  -- with its present status and the time it was last seen, if every registration used the
  -- component's own identifier, and one that the storage accepts.
  pub Reach-IsMirrored :
      {s t : Server State} → Reach s t → IsMirrored st rel s → IsMirrored st rel t
  Reach-IsMirrored here h = h
  Reach-IsMirrored (next r step) h = Step-IsMirrored step (Reach-IsMirrored r h)
