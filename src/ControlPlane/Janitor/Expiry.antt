-- ===== src/ControlPlane/Janitor/Expiry.antt =====
-- What a round of the janitor does to the services.
use flowctl.Prelude.{
  ℕ, ◌+◌, ◌≤◌, ◌<◌, String, ◌≡◌, refl, ◌≢◌, ◌⊎◌, ◌∙◌, sym, false, Option, none, some, arith,
  if◌then◌else◌, [], ◌∷◌, ap,
}
use flowctl.Prelude.Map.{StringMap, lookup}
use flowctl.Proto.Enums.{HealthStatus}
use flowctl.Storage.Interface.{ServiceStorage}
use flowctl.ControlPlane.State.{Service, Server}
use flowctl.ControlPlane.Janitor.{
  expires, mark_unhealthy, check_storage, check_services, check_service_health,
}

-- What a round makes of one service.
unfoldable pub checked : ℕ → ℕ → Service → Service
unfolding expires mark_unhealthy
checked now ttl service = if expires now ttl service then mark_unhealthy service else service

abbrev pub checked_entry : ℕ → ℕ → Option Service → Option Service
checked_entry now ttl none = none
checked_entry now ttl (some service) = some (checked now ttl service)

pub lookup-check_services :
    (st : ServiceStorage) (now ttl : ℕ) (j : String) (m : StringMap Service)
    → lookup j (check_services st now ttl m) ≡ checked_entry now ttl (lookup j m)
unfolding lookup check_services checked
lookup-check_services st now ttl j [] = refl
lookup-check_services st now ttl j ((id, service) ∷ m) =
    ground (arith, lookup-check_services st now ttl j m)

checked_fresh :
    (now ttl : ℕ) (service : Service)
    → (checked now ttl service).status.status ≡ HealthStatus.healthy
    → now ≤ (checked now ttl service).last_seen + ttl
unfolding checked
checked_fresh now ttl service h = ground arith

checked_stale :
    (now ttl : ℕ) (service : Service)
    → service.status.status ≡ HealthStatus.healthy
    → service.last_seen + ttl < now
    → checked now ttl service ≡ mark_unhealthy service
unfolding checked
checked_stale now ttl service h k = ground arith

checked_kept :
    (now ttl : ℕ) (service : Service)
    → (service.status.status ≢ HealthStatus.healthy) ⊎ (now ≤ service.last_seen + ttl)
    → checked now ttl service ≡ service
unfolding checked
checked_kept now ttl service h = ground arith

expires-checked :
    (now ttl : ℕ) (service : Service) → expires now ttl (checked now ttl service) ≡ false
unfolding checked
expires-checked now ttl service = ground arith

module _ (st : ServiceStorage) where
  check_storage_again :
      (now ttl : ℕ) (m : StringMap Service) (d : Option (st.State))
      → check_storage st now ttl (check_services st now ttl m) d ≡ d
  unfolding check_storage check_services checked
  check_storage_again now ttl [] d = refl
  check_storage_again now ttl ((id, service) ∷ m) d =
      rw (expires-checked now ttl service, check_storage) (check_storage_again now ttl m d)

  check_services_again :
      (now ttl : ℕ) (m : StringMap Service)
      → check_services st now ttl (check_services st now ttl m) ≡ check_services st now ttl m
  unfolding check_services checked
  check_services_again now ttl [] = refl
  check_services_again now ttl ((id, service) ∷ m) =
      rw (expires-checked now ttl service, check_services_again now ttl m)

  -- A round of the janitor marks a service unhealthy if it is healthy and was last seen more than the
  -- TTL ago, and changes nothing else of it.
  janitor_expires :
      (now : ℕ) (j : String) (s : Server (st.State)) (service : Service)
      → lookup j s.services ≡ some service
      → service.status.status ≡ HealthStatus.healthy
      → service.last_seen + s.heartbeat_ttl < now
      → lookup j (check_service_health st now s).services
        ≡ some (record service {
          status = record (service.status) { status = HealthStatus.unhealthy };
        })
  unfolding check_service_health mark_unhealthy
  janitor_expires now j s service e h k =
      lookup-check_services st now s.heartbeat_ttl j s.services
      ∙ rw e (ap some (checked_stale now s.heartbeat_ttl service h k))

  -- A service that is not healthy, or was seen within the TTL, stays as it is.
  janitor_keeps :
      (now : ℕ) (j : String) (s : Server (st.State)) (service : Service)
      → lookup j s.services ≡ some service
      → (service.status.status ≢ HealthStatus.healthy) ⊎ (now ≤ service.last_seen + s.heartbeat_ttl)
      → lookup j (check_service_health st now s).services ≡ some service
  unfolding check_service_health
  janitor_keeps now j s service e h =
      lookup-check_services st now s.heartbeat_ttl j s.services
      ∙ rw e (ap some (checked_kept now s.heartbeat_ttl service h))

  -- After a round every service that reads healthy was seen within the TTL.
  janitor_fresh :
      (now : ℕ) (j : String) (s : Server (st.State)) (service : Service)
      → lookup j (check_service_health st now s).services ≡ some service
      → service.status.status ≡ HealthStatus.healthy
      → now ≤ service.last_seen + s.heartbeat_ttl
  unfolding check_service_health
  janitor_fresh now j s service e h =
      fresh_entry (lookup j s.services)
        (sym (lookup-check_services st now s.heartbeat_ttl j s.services) ∙ e)
    where
      fresh_entry :
          (o : Option Service)
          → checked_entry now s.heartbeat_ttl o ≡ some service
          → now ≤ service.last_seen + s.heartbeat_ttl
      fresh_entry none p = cc
      fresh_entry (some old) p = ground (arith, checked_fresh now s.heartbeat_ttl old)

  -- A second round at the same time changes nothing, in the registry or in the storage.
  janitor_idempotent :
      (now : ℕ) (s : Server (st.State))
      → check_service_health st now (check_service_health st now s) ≡ check_service_health st now s
  unfolding check_service_health
  janitor_idempotent now s = rw (check_services_again now s.heartbeat_ttl s.services) (
      rw (
        check_storage_again now s.heartbeat_ttl s.services
          (check_storage st now s.heartbeat_ttl s.services s.storage)))
