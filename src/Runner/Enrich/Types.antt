-- ===== src/Runner/Enrich/Types.antt =====
-- What the control plane has of the components after enrichRegisteredComponents of
-- internal/runner/pipeline_runner.go.
use mathlib.Core.List.{Memᴰ}
use mathlib.Core.Path.{subst}
use flowctl.Prelude.{
  ℕ, String, true, false, ◌≡◌, ◌⊎◌, ◌≢◌, ◌&&◌, not, refl, ap, sym, ◌∙◌, Option, none, some, List,
  [], ◌∷◌, ◌++◌, map, All, All-append, str_eq, eq_iff, eq_refl, arith, Bool-cases, inl, inr,
}
use flowctl.Prelude.Map.{lookup}
use flowctl.Proto.Enums.{ComponentType, HealthStatus}
use flowctl.Proto.Messages.{ComponentInfo}
use flowctl.Storage.Interface.{ServiceStorage}
use flowctl.ControlPlane.State.{Service, Server}
use flowctl.ControlPlane.Registry.{new_service}
use flowctl.Pipeline.Model.{Component, Pipeline}
use flowctl.Pipeline.Loader.{is_empty, Role, has_id, validate_pipeline}
use flowctl.Pipeline.Loader.Sound.{
  push_ids, all_ids, AreDistinct, IsValidFor, validate_pipeline-IsValid,
}
use flowctl.Pipeline.Loader.Distinct.{ids, before_distinct, own_distinct}
use flowctl.Runner.Enrich.Rounds.{improved, improved_or, enriched_at, enrich_components_lem}
use flowctl.Runner.Enrich.{
  with_role, enriched_components, needs_enrichment, types_or, enriched_info,
  enrich_registered_components,
}

abbrev item_ids : List (String × Component) → List String
item_ids items = map (λ (i : String × Component). i.1.id) items

-- Components with other identifiers do not matter.
enriched_others :
    (now : Component → ℕ) (j : String) (items : List (String × Component)) (found : Option Service)
    → has_id (item_ids items) j ≡ false
    → enriched_at now j items found ≡ found
unfolding enriched_at
enriched_others now j [] found new = refl
enriched_others now j ((role, c) ∷ items) found new =
    let (other, rest) : (str_eq c.id j ≡ false) × (has_id (item_ids items) j ≡ false) =
      (ground arith, ground arith) in
    rw (other, enriched_at) (enriched_others now j items found rest)

member-has_id :
    (role : String) (c : Component) (items : List (String × Component))
    → Memᴰ (role, c) items
    → has_id (item_ids items) c.id ≡ true
member-has_id role c [] h = elim h [ ]
member-has_id role c (i ∷ items) (Memᴰ.head e) =
    rw (ap (λ (x : String × Component). x.1.id) e, eq_refl i.1.id) refl
member-has_id role c (i ∷ items) (Memᴰ.tail h) =
    let there = member-has_id role c items h in ground arith

-- A component among distinct ones is enriched once.
enriched_own :
    (now : Component → ℕ) (role : String) (c : Component) (items : List (String × Component))
    (service : Service)
    → AreDistinct (item_ids items)
    → Memᴰ (role, c) items
    → enriched_at now c.id items (some service) ≡ some (improved now role c service)
unfolding enriched_at improved_or
enriched_own now role c [] service distinct h = elim h [ ]
enriched_own now role c ((role', c') ∷ items) service (new, distinct) (Memᴰ.head e) =
    subst
      (λ (i : String × Component).
        enriched_at now i.1.id ((role', c') ∷ items) (some service)
        ≡ some (improved now i.0 i.1 service))
      (sym e)
      (rw (eq_refl c'.id, enriched_at)
        (enriched_others now c'.id items (some (improved now role' c' service)) new))
enriched_own now role c ((role', c') ∷ items) service (new, distinct) (Memᴰ.tail h) =
    elim (Bool-cases (str_eq c'.id c.id)) [
      | inl same ↦ absurd (
          cc (
            ap (has_id (item_ids items)) ((eq_iff c'.id c.id).0 same),
            new,
            member-has_id role c items h,
          ))
      | inr other ↦ rw (other, enriched_at) (enriched_own now role c items service distinct h)
    ]

ids-with_role :
    (role : String) (cs more : List Component) (items : List (String × Component))
    → item_ids items ≡ ids more
    → item_ids (with_role role cs ++ items) ≡ ids (cs ++ more)
ids-with_role role [] more items h = h
ids-with_role role (c ∷ cs) more items h = ap (λ is. c.id ∷ is) (ids-with_role role cs more items h)

push_ids-append :
    (known : List String) (xs ys : List Component)
    → push_ids known (xs ++ ys) ≡ push_ids (push_ids known xs) ys
push_ids-append known [] ys = refl
push_ids-append known (x ∷ xs) ys = push_ids-append (x.id ∷ known) xs ys

ids-with_role_alone : (role : String) (cs : List Component) → item_ids (with_role role cs) ≡ ids cs
ids-with_role_alone role [] = refl
ids-with_role_alone role (c ∷ cs) = ap (λ is. c.id ∷ is) (ids-with_role_alone role cs)

All-with_role :
    (P : Component → Type 0) (role : String) (cs : List Component)
    → ((c : Component) → P c → c.id ≢ "")
    → All P cs
    → All (λ (i : String × Component). i.1.id ≢ "") (with_role role cs)
All-with_role P role [] named h = tt
All-with_role P role (c ∷ cs) named (own, h) = (named c own, All-with_role P role cs named h)

abbrev pub own_or : List String → List String → List String
own_or [] others = others
own_or (t ∷ own) others = t ∷ own

-- What the enrichment makes of a service: its types are its own, or else the pipeline's; and either the
-- whole service is as it was, or one of the lists was empty and is not now, and it is healthy.
abbrev pub IsEnriched : Component → (before after : Service) → Type 0
IsEnriched c before after =
    let (own, new) : ComponentInfo × ComponentInfo =
      (before.status.component, after.status.component) in
    (new.input_event_types ≡ own_or own.input_event_types c.input_event_types)
    × (new.output_event_types ≡ own_or own.output_event_types c.output_event_types)
    × ((after ≡ before)
        ⊎ ((((own.input_event_types ≡ []) × (new.input_event_types ≢ []))
              ⊎ ((own.output_event_types ≡ []) × (new.output_event_types ≢ [])))
            × (after.status.status ≡ HealthStatus.healthy)))

types_or_lem : (own others : List String) → types_or own others ≡ own_or own others
unfolding types_or
types_or_lem [] [] = refl
types_or_lem [] (t ∷ others) = refl
types_or_lem (t ∷ own) others = refl

whole_own :
    (own others : List String)
    → (is_empty own && not (is_empty others)) ≡ false
    → own ≡ own_or own others
whole_own [] [] h = refl
whole_own [] (t ∷ others) h = absurd (cc h)
whole_own (t ∷ own) others h = refl

filled :
    (own others : List String)
    → (is_empty own && not (is_empty others)) ≡ true
    → (own ≡ []) × (own_or own others ≢ [])
filled [] [] h = absurd (cc h)
filled [] (t ∷ others) h = (refl, λ e. ground (arith, e))
filled (t ∷ own) others h = absurd (cc h)

needs-cases :
    (info : ComponentInfo) (c : Component)
    → needs_enrichment info c ≡ true
    → ((is_empty info.input_event_types && not (is_empty c.input_event_types)) ≡ true)
      ⊎ ((is_empty info.output_event_types && not (is_empty c.output_event_types)) ≡ true)
unfolding needs_enrichment
needs-cases info c h = ground arith

whole-parts :
    (info : ComponentInfo) (c : Component)
    → needs_enrichment info c ≡ false
    → ((is_empty info.input_event_types && not (is_empty c.input_event_types)) ≡ false)
      × ((is_empty info.output_event_types && not (is_empty c.output_event_types)) ≡ false)
unfolding needs_enrichment
whole-parts info c h = (ground arith, ground arith)

improved-IsEnriched :
    (now : Component → ℕ) (role : String) (c : Component) (service : Service)
    → IsEnriched c service (improved now role c service)
unfolding improved enriched_info new_service
improved-IsEnriched now role c service =
    let info = service.status.component in
    let inputs = types_or_lem info.input_event_types c.input_event_types in
    let outputs = types_or_lem info.output_event_types c.output_event_types in
    elim (Bool-cases (needs_enrichment info c)) [
      | inl needs ↦
          rw (improved, needs)
            (
              inputs,
              outputs,
              inr (
                elim (needs-cases info c needs) [
                  | inl e ↦
                      let (none_yet, some_now) =
                        filled info.input_event_types c.input_event_types e in
                      inl (none_yet, λ k. some_now (sym inputs ∙ k))
                  | inr e ↦
                      let (none_yet, some_now) =
                        filled info.output_event_types c.output_event_types e in
                      inr (none_yet, λ k. some_now (sym outputs ∙ k))
                ],
                refl,
              ),
            )
      | inr whole ↦
          let (ins, outs) = whole-parts info c whole in
          rw (improved, whole)
            (
              whole_own info.input_event_types c.input_event_types ins,
              whole_own info.output_event_types c.output_event_types outs,
              inl refl,
            )
    ]

loaded_items :
    (p : Pipeline)
    → validate_pipeline p ≡ none
    → AreDistinct (item_ids (enriched_components p.spec))
      × All (λ (i : String × Component). i.1.id ≢ "") (enriched_components p.spec)
unfolding enriched_components
loaded_items p h =
    let valid = (validate_pipeline-IsValid p h).4 in
    let roles = all_ids p.spec in
    let earlier = push_ids (push_ids [] p.spec.sources) p.spec.processors in
    let joined =
      push_ids-append [] p.spec.sources (p.spec.processors ++ p.spec.sinks)
      ∙ push_ids-append (push_ids [] p.spec.sources) p.spec.processors p.spec.sinks in
    let same =
      ids-with_role "source" p.spec.sources (p.spec.processors ++ p.spec.sinks)
        (with_role "processor" p.spec.processors ++ with_role "sink" p.spec.sinks)
        (ids-with_role "processor" p.spec.processors p.spec.sinks (with_role "sink" p.spec.sinks)
          (ids-with_role_alone "sink" p.spec.sinks)) in
    (
      subst AreDistinct (sym same) (
          own_distinct [] (p.spec.sources ++ (p.spec.processors ++ p.spec.sinks)) (
            subst AreDistinct (sym joined)
              (before_distinct (push_ids earlier p.spec.sinks) p.spec.pipelines valid.distinct))),
      All-append (λ (i : String × Component). i.1.id ≢ "") (with_role "source" p.spec.sources) _
          (All-with_role (IsValidFor Role.source roles) "source" p.spec.sources (λ c h. h.0)
            valid.sources)
          (All-append (λ (i : String × Component). i.1.id ≢ "")
            (with_role "processor" p.spec.processors) _
            (All-with_role (IsValidFor Role.processor roles) "processor" p.spec.processors
              (λ c h. h.0.0) valid.processors)
            (All-with_role (IsValidFor Role.sink roles) "sink" p.spec.sinks (λ c h. h.0.0)
              valid.sinks)),
    )

-- In a pipeline that the loader accepts, every source, processor and sink that is registered has, after the
-- enrichment, the event types that it registered, or else those of the pipeline; its service either is as
-- it was, or got types that it had not, and is healthy, whatever it was before. No registration is refused.
pub enrich_registered_components-IsEnriched :
    (st : ServiceStorage) (type_name : ComponentType → String) (now : Component → ℕ) (p : Pipeline)
    (s : Server (st.State)) (role : String) (c : Component) (before : Service)
    → validate_pipeline p ≡ none
    → Memᴰ (role, c) (enriched_components p.spec)
    → lookup c.id s.services ≡ some before
    → let (s', refused) = enrich_registered_components st type_name now p.spec s in
      (refused ≡ none)
      × (after : Service) × (lookup c.id s'.services ≡ some after)
      × IsEnriched c before after
unfolding enrich_registered_components
enrich_registered_components-IsEnriched st type_name now p s role c before h member present =
    let items = enriched_components p.spec in
    let (distinct, named) = loaded_items p h in
    let (there, done) = enrich_components_lem st type_name now items s c.id named in
    (
      done,
      improved now role c before,
      there
          ∙ (ap (enriched_at now c.id items) present
              ∙ enriched_own now role c items before distinct member),
      improved-IsEnriched now role c before,
    )
