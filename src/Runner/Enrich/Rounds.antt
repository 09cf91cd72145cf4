-- ===== src/Runner/Enrich/Rounds.antt =====
-- The services of the control plane, component after component, in enrichRegisteredComponents of
-- internal/runner/pipeline_runner.go.
use flowctl.Prelude.{
  ℕ, String, true, false, ◌≡◌, ◌≢◌, refl, ap, sym, ◌∙◌, Option, none, some, List, [], ◌∷◌, All,
  str_eq, eq_iff, arith, if◌then◌else◌, Bool-cases, Option-cases, inl, inr,
}
use flowctl.Prelude.Map.{lookup, lookup-insert}
use flowctl.Proto.Enums.{ComponentType}
use flowctl.Proto.Messages.{ComponentInfo}
use flowctl.Storage.Interface.{ServiceStorage}
use flowctl.ControlPlane.State.{Service, Server}
use flowctl.ControlPlane.Registry.{
  register_component, get_component_status, new_service, assigned_id,
}
use flowctl.Pipeline.Model.{Component}
use flowctl.Runner.Enrich.{
  needs_enrichment, enriched_info, register_enriched, enrich_component, enrich_components,
}

-- The service that a component has after its enrichment.
unfoldable pub improved : (Component → ℕ) → String → Component → Service → Service
improved now role c service =
    if needs_enrichment service.status.component c
    then new_service (now c) (enriched_info role service.status.component c)
    else service

unfoldable pub improved_or : (Component → ℕ) → String → Component → Option Service → Option Service
unfolding improved
improved_or now role c none = none
improved_or now role c (some service) = some (improved now role c service)

-- An identifier's service, after the enrichment of components one after the other.
unfoldable pub enriched_at :
    (Component → ℕ) → String → List (String × Component) → Option Service → Option Service
unfolding improved_or
enriched_at now j [] found = found
enriched_at now j ((role, c) ∷ items) found =
    enriched_at now j items (if str_eq c.id j then improved_or now role c found else found)

module _ (st : ServiceStorage) (type_name : ComponentType → String) (now : Component → ℕ) where
  registered_lookup :
      (c : Component) (info : ComponentInfo) (s : Server (st.State)) (j : String)
      → c.id ≢ ""
      → lookup j
          (register_component st type_name
            (now c)
            (now c)
            (record { component_id = c.id; component = some info })
            s).0.services
        ≡ (if str_eq c.id j then some (new_service (now c) info) else lookup j s.services)
  unfolding register_component assigned_id
  registered_lookup c info s j named =
      let fresh : str_eq c.id "" ≡ false = ground (arith, eq_iff c.id "") in
      rw fresh (lookup-insert c.id j (new_service (now c) info) s.services)

  register_enriched_lem :
      (role : String) (c : Component) (info : ComponentInfo) (s : Server (st.State)) (j : String)
      → c.id ≢ ""
      → (lookup j (register_enriched st type_name now role c info s).0.services ≡ (
          if str_eq c.id j
          then some (new_service (now c) (enriched_info role info c))
          else lookup j s.services))
        × ((register_enriched st type_name now role c info s).1 ≡ none)
  unfolding register_enriched
  register_enriched_lem role c info s j named =
      (registered_lookup c (enriched_info role info c) s j named, refl)

  -- A component that is not registered, or that has its types, stays as it is.
  enrich-absent :
      (role : String) (c : Component) (s : Server (st.State))
      → lookup c.id s.services ≡ none
      → enrich_component st type_name now role c s ≡ (s, none)
  unfolding enrich_component get_component_status
  enrich-absent role c s absent = rw (enrich_component, get_component_status, absent) refl

  enrich-whole :
      (role : String) (c : Component) (s : Server (st.State)) (service : Service)
      → lookup c.id s.services ≡ some service
      → needs_enrichment service.status.component c ≡ false
      → enrich_component st type_name now role c s ≡ (s, none)
  unfolding enrich_component get_component_status
  enrich-whole role c s service present whole =
      rw (enrich_component, get_component_status, present) (rw whole refl)

  enrich-needed :
      (role : String) (c : Component) (s : Server (st.State)) (service : Service)
      → lookup c.id s.services ≡ some service
      → needs_enrichment service.status.component c ≡ true
      → enrich_component st type_name now role c s
        ≡ register_enriched st type_name now role c service.status.component s
  unfolding enrich_component get_component_status
  enrich-needed role c s service present needs =
      rw (enrich_component, get_component_status, present) (rw needs refl)

  found_under :
      (c : Component) (s : Server (st.State)) (j : String) (o : Option Service)
      → lookup c.id s.services ≡ o
      → str_eq c.id j ≡ true
      → lookup j s.services ≡ o
  found_under c s j o found same =
      sym (ap (λ k. lookup k s.services) ((eq_iff c.id j).0 same)) ∙ found

  kept :
      (role : String) (c : Component) (s : Server (st.State)) (j : String) (o : Option Service)
      → lookup c.id s.services ≡ o
      → improved_or now role c o ≡ o
      → lookup j s.services ≡ (
          if str_eq c.id j
          then improved_or now role c (lookup j s.services)
          else lookup j s.services)
  kept role c s j o found stays = elim (Bool-cases (str_eq c.id j)) [
    | inl same ↦ rw (same, found_under c s j o found same) (sym stays)
    | inr other ↦ rw other refl
  ]

  replaced :
      (role : String) (c : Component) (s : Server (st.State)) (j : String) (service : Service)
      → lookup c.id s.services ≡ some service
      → needs_enrichment service.status.component c ≡ true
      → (if str_eq c.id j
          then some (new_service (now c) (enriched_info role service.status.component c))
          else lookup j s.services)
        ≡ (if str_eq c.id j
            then improved_or now role c (lookup j s.services)
            else lookup j s.services)
  unfolding improved_or improved
  replaced role c s j service present needs = elim (Bool-cases (str_eq c.id j)) [
    | inl same ↦
        rw (same, found_under c s j (some service) present same) (rw (improved, needs) refl)
    | inr other ↦ rw other refl
  ]

  enrich_component_lem :
      (role : String) (c : Component) (s : Server (st.State)) (j : String)
      → c.id ≢ ""
      → (lookup j (enrich_component st type_name now role c s).0.services ≡ (
          if str_eq c.id j
          then improved_or now role c (lookup j s.services)
          else lookup j s.services))
        × ((enrich_component st type_name now role c s).1 ≡ none)
  unfolding improved_or improved
  enrich_component_lem role c s j named = elim (Option-cases (lookup c.id s.services)) [
    | inl absent ↦ rw (enrich-absent role c s absent) (kept role c s j none absent refl, refl)
    | inr (service, present) ↦ elim (Bool-cases (needs_enrichment service.status.component c)) [
      | inl needs ↦
          let (there, done) = register_enriched_lem role c service.status.component s j named in
          rw (enrich-needed role c s service present needs)
            (there ∙ replaced role c s j service present needs, done)
      | inr whole ↦
          rw (enrich-whole role c s service present whole)
            (kept role c s j (some service) present (rw (improved_or, improved, whole) refl), refl)
    ]
  ]

  pub enrich_components_lem :
      (items : List (String × Component)) (s : Server (st.State)) (j : String)
      → All (λ (i : String × Component). i.1.id ≢ "") items
      → (lookup j (enrich_components st type_name now items s).0.services
          ≡ enriched_at now j items (lookup j s.services))
        × ((enrich_components st type_name now items s).1 ≡ none)
  unfolding enrich_components enriched_at
  enrich_components_lem [] s j named = (refl, refl)
  enrich_components_lem ((role, c) ∷ items) s j (own, named) =
      let (there, done) = enrich_component_lem role c s j own in
      let (rest, clean) =
        enrich_components_lem items (enrich_component st type_name now role c s).0 j named in
      rw (done, enrich_components) (rest ∙ ap (enriched_at now j items) there, clean)
