-- ===== src/ControlPlane/Janitor.antt =====
-- The life of the server: its settings, Start with the services that the storage kept, the janitor's
-- rounds, Close, and the stop callbacks.
pub mod Expiry
use flowctl.Prelude.{
  ℕ, ◌+◌, String, Bool, true, false, ◌&&◌, Option, none, some, List, [], ◌∷◌, str_eq, ltb,
  if◌then◌else◌,
}
use flowctl.Prelude.Map.{StringMap, insert, erase}
use flowctl.Proto.Enums.{HealthStatus, health_eq}
use flowctl.Storage.Types.{ServiceInfo, ok, fail, Updater}
use flowctl.Storage.Interface.{ServiceStorage}
use flowctl.ControlPlane.State.{Service, Server, Reply, ok as done, err as refused, storage_error}
use flowctl.ControlPlane.Registry.{persist}

unfoldable pub set_heartbeat_ttl : {S : Type 0} → ℕ → Server S → Server S
set_heartbeat_ttl ttl s = record s { heartbeat_ttl = ttl }

unfoldable pub set_janitor_interval : {S : Type 0} → ℕ → Server S → Server S
set_janitor_interval interval s = record s { janitor_interval = interval }

abbrev pub loaded : ServiceInfo → Service
loaded x = record { info = x.info; status = x.status; last_seen = x.last_seen }

-- The loop of loadServices: each stored service is written under its component's identifier.
unfoldable pub load_services : List ServiceInfo → StringMap Service → StringMap Service
load_services [] services = services
load_services (x ∷ xs) services = load_services xs (insert x.info.id (loaded x) services)

-- No heartbeat for longer than the TTL: last seen before `now - ttl`.
unfoldable pub is_stale : ℕ → ℕ → Service → Bool
is_stale now ttl service = ltb (service.last_seen + ttl) now

-- The services that a round of the janitor changes.
unfoldable pub expires : ℕ → ℕ → Service → Bool
unfolding is_stale
expires now ttl service =
    is_stale now ttl service && health_eq service.status.status HealthStatus.healthy

unfoldable pub mark_unhealthy : Service → Service
mark_unhealthy service = record service {
  status = record service.status { status = HealthStatus.unhealthy };
}

unfoldable pub mark_stored_unhealthy : Updater ServiceInfo
mark_stored_unhealthy x =
    (record x { status = record x.status { status = HealthStatus.unhealthy } }, none)

module _ (st : ServiceStorage) where
  open st use {State}

  abbrev start_janitor : Server State → Server State
  start_janitor s = record s { janitor_started = true }

  -- Start opens the storage and loads its services; an error leaves the janitor unstarted.
  unfoldable pub start : Server State → Server State × Reply (Unit {0})
  unfolding load_services
  start s = elim s.storage [
    | none ↦ (start_janitor s, done tt)
    | some d ↦ elim (st.open_storage d).1 [
      | some e ↦ (record s { storage = some (st.open_storage d).0 }, refused (storage_error e))
      | none ↦ elim (st.list_services (st.open_storage d).0) [
        | fail e ↦ (record s { storage = some (st.open_storage d).0 }, refused (storage_error e))
        | ok xs ↦ (
          start_janitor (record s {
            storage = some (st.open_storage d).0;
            services = load_services xs s.services;
          }),
          done tt,
        )
      ]
    ]
  ]

  -- Close signals a started janitor, waits for it, and closes the storage.
  unfoldable pub close : Server State → Server State × Reply (Unit {0})
  close s =
      let s' =
        if s.janitor_started then record s { signalled = true; janitor_started = false } else s in
      elim s'.storage [
        | none ↦ (s', done tt)
        | some d ↦ (
          record s' { storage = some (st.close_storage d).0 },
          elim (st.close_storage d).1 [ none ↦ done tt | some e ↦ refused (storage_error e) ],
        )
      ]

  -- The storage after the loop of checkServiceHealth over the entries.
  unfoldable pub check_storage : ℕ → ℕ → StringMap Service → Option State → Option State
  unfolding expires mark_stored_unhealthy
  check_storage now ttl [] d = d
  check_storage now ttl ((id, service) ∷ m) d = check_storage now ttl m (
      if expires now ttl service then persist (st.update_service id mark_stored_unhealthy) d else d)

  -- The services after that loop.
  unfoldable pub check_services : ℕ → ℕ → StringMap Service → StringMap Service
  unfolding expires mark_unhealthy
  check_services now ttl [] = []
  check_services now ttl ((id, service) ∷ m) =
      (id, (if expires now ttl service then mark_unhealthy service else service))
      ∷ check_services now ttl m

  unfoldable pub check_service_health : ℕ → Server State → Server State
  unfolding check_storage check_services
  check_service_health now s = record s {
    services = check_services now s.heartbeat_ttl s.services;
    storage = check_storage now s.heartbeat_ttl s.services s.storage;
  }

-- A run without an identifier is refused. (The nil callback that the code also refuses has no number.)
unfoldable pub register_run_stopper : {S : Type 0} → String → Option ℕ → Server S → Server S
register_run_stopper id none s = s
register_run_stopper id (some stopper) s =
    if str_eq id "" then s else record s { run_stoppers = insert id stopper s.run_stoppers }

unfoldable pub unregister_run_stopper : {S : Type 0} → String → Server S → Server S
unregister_run_stopper id s =
    if str_eq id "" then s else record s { run_stoppers = erase id s.run_stoppers }
