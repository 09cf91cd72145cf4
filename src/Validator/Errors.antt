-- ===== src/Validator/Errors.antt =====
-- When each check of internal/validator/validator.go but that of the ports appends no error.
use flowctl.Prelude.{
  String, ◌≡◌, refl, ◌≢◌, ◌⊎◌, ◌↔◌, true, false, List, [], ◌∷◌, ◌++◌, eq_iff, arith, All,
  All-append_iff, is_some, inl, inr, Option-cases,
}
use flowctl.Prelude.Int.{is_negative}
use flowctl.Prelude.Map.{StringMap, lookup, insert, lookup-insert}
use flowctl.Pipeline.Model.{Component, Spec, Pipeline}
use flowctl.Pipeline.Loader.{has_id}
use flowctl.Pipeline.Loader.Sound.{AreDistinct}
use flowctl.Validator.Accepted.{IsLaunchable, HasHealthPort, IsConnected, AreConnected, inner_ids}
use flowctl.Validator.Checks.{
  valid_drivers, metadata_errors, driver_errors, component_errors, duplicate_errors, seen_after,
  validate_duplicates, health_errors, input_errors, replica_errors, no_input_errors, detail_errors,
  processor_errors, sink_errors, known_after, validate_details, command_errors, over,
  validate_commands,
}
use flowctl.Validator.Ports.{all_components}

pub append_empty_iff {ℓ} : {A : Type ℓ} (xs ys : List A) → (xs ++ ys ≡ []) ↔ ((xs ≡ []) × (ys ≡ []))
append_empty_iff [] ys = (λ h. (refl, h), λ h. h.1)
append_empty_iff (x ∷ xs) ys = (λ h. cc, λ h. cc)

pub both_iff {ℓ κ μ} :
    {A : Type ℓ} {P : Type κ} {Q : Type μ} (xs ys : List A)
    → (xs ≡ []) ↔ P
    → (ys ≡ []) ↔ Q
    → (xs ++ ys ≡ []) ↔ (P × Q)
both_iff xs ys p q =
    let e = append_empty_iff xs ys in
    (λ h. (p.0 (e.0 h).0, q.0 (e.0 h).1), λ h. e.1 (p.1 h.0, q.1 h.1))

pub metadata_iff : (p : Pipeline) → (metadata_errors p ≡ []) ↔ (p.name ≢ "")
unfolding metadata_errors
metadata_iff p = ground (arith, eq_iff p.name "")

pub driver_iff :
    (quote : String → String) (driver : String)
    → (driver_errors quote driver ≡ []) ↔ ((driver ≡ "") ⊎ (has_id valid_drivers driver ≡ true))
unfolding driver_errors
driver_iff quote driver = ground (arith, eq_iff driver "")

pub component_iff :
    (spec : Spec) → (component_errors spec ≡ []) ↔ ((spec.sources ≢ []) × (spec.sinks ≢ []))
unfolding component_errors
component_iff spec = ground arith

module _ (quote : String → String) where
  health_iff : (cs : List Component) → (health_errors quote cs ≡ []) ↔ All HasHealthPort cs
  unfolding health_errors
  health_iff [] = (λ h. tt, λ h. refl)
  health_iff (c ∷ cs) = both_iff _ _ (ground (arith, eq_iff c.health_check "")) (health_iff cs)

  input_iff :
      (section kind id : String) (known inputs : List String)
      → (input_errors quote section kind id known inputs ≡ [])
        ↔ All (λ input. has_id known input ≡ true) inputs
  unfolding input_errors
  input_iff section kind id known [] = (λ h. tt, λ h. refl)
  input_iff section kind id known (input ∷ inputs) =
      both_iff _ _ (ground arith) (input_iff section kind id known inputs)

  detail_iff :
      (section kind fix : String) (known : List String) (c : Component)
      → (detail_errors quote section kind fix known c ≡ []) ↔ IsConnected known c
  unfolding detail_errors replica_errors no_input_errors
  detail_iff section kind fix known c =
      let inputs = input_iff section kind c.id known c.inputs in
      let some_input : (no_input_errors quote section kind fix c ≡ []) ↔ (c.inputs ≢ []) =
        ground arith in
      let replicas : (replica_errors quote section kind c ≡ []) ↔ (is_negative c.replicas ≡ false) =
        ground arith in
      let all = both_iff _ _ (both_iff _ _ replicas some_input) inputs in
      (λ h. let ((a, b), c) = all.0 h in (a, b, c), λ h. all.1 ((h.0, h.1), h.2))

  processor_iff :
      (known : List String) (cs : List Component)
      → (processor_errors quote known cs ≡ []) ↔ AreConnected known cs
  unfolding processor_errors
  processor_iff known [] = (λ h. tt, λ h. refl)
  processor_iff known (c ∷ cs) =
      both_iff _ _ (detail_iff _ _ _ known c) (processor_iff (c.id ∷ known) cs)

  sink_iff :
      (known : List String) (cs : List Component)
      → (sink_errors quote known cs ≡ []) ↔ All (IsConnected known) cs
  unfolding sink_errors
  sink_iff known [] = (λ h. tt, λ h. refl)
  sink_iff known (c ∷ cs) = both_iff _ _ (detail_iff _ _ _ known c) (sink_iff known cs)

command_iff : (kind : String) (c : Component) → (command_errors kind c ≡ []) ↔ IsLaunchable c
unfolding command_errors
command_iff kind c = ground (arith, eq_iff c.image "", eq_iff c.type "")

commands_iff :
    (kind : String) (cs : List Component)
    → (over (command_errors kind) cs ≡ []) ↔ All IsLaunchable cs
commands_iff kind [] = (λ h. tt, λ h. refl)
commands_iff kind (c ∷ cs) = both_iff _ _ (command_iff kind c) (commands_iff kind cs)

-- The keys that validateDuplicateIDs has seen are the identifiers before.
abbrev Sees : StringMap String → List String → Type 0
Sees seen ids = (id : String) → is_some (lookup id seen) ≡ has_id ids id

Sees-insert :
    (id kind : String) (seen : StringMap String) (ids : List String)
    → Sees seen ids
    → Sees (insert id kind seen) (id ∷ ids)
Sees-insert id kind seen ids sees j = ground (arith, sees j, lookup-insert id j kind seen)

Sees-seen_after :
    (kind : String) (seen : StringMap String) (ids : List String) (cs : List Component)
    → Sees seen ids
    → Sees (seen_after kind seen cs) (known_after ids cs)
unfolding seen_after
Sees-seen_after kind seen ids [] sees = sees
Sees-seen_after kind seen ids (c ∷ cs) sees =
    Sees-seen_after kind (insert c.id kind seen) (c.id ∷ ids) cs
      (Sees-insert c.id kind seen ids sees)

pub AreDistinct-known_after :
    (ids : List String) (cs : List Component) → AreDistinct (known_after ids cs) → AreDistinct ids
AreDistinct-known_after ids [] d = d
AreDistinct-known_after ids (c ∷ cs) d = (AreDistinct-known_after (c.id ∷ ids) cs d).1

duplicate_iff :
    (kind : String) (seen : StringMap String) (ids : List String) (cs : List Component)
    → Sees seen ids
    → AreDistinct ids
    → (duplicate_errors kind seen cs ≡ []) ↔ AreDistinct (known_after ids cs)
unfolding duplicate_errors
duplicate_iff kind seen ids [] sees d = (λ h. d, λ h. refl)
duplicate_iff kind seen ids (c ∷ cs) sees d = elim (Option-cases (lookup c.id seen)) [
  | inl new ↦
      let fresh : has_id ids c.id ≡ false = ground (arith, sees c.id, new) in
      let rest =
        duplicate_iff kind (insert c.id kind seen) (c.id ∷ ids) cs
          (Sees-insert c.id kind seen ids sees) (fresh, d) in
      (λ h. rest.0 (rw (new, duplicate_errors) at h), λ h. rw (new, duplicate_errors) (rest.1 h))
  | inr (t, old) ↦ (
    λ h. absurd (ground (arith, h, old)),
    λ h. absurd (ground (arith, old, sees c.id, (AreDistinct-known_after (c.id ∷ ids) cs h).0)),
  )
]

pub duplicates_iff :
    (spec : Spec)
    → (validate_duplicates spec ≡ []) ↔ AreDistinct (known_after (inner_ids spec) spec.sinks)
unfolding validate_duplicates lookup
duplicates_iff spec =
    let a = known_after [] spec.sources in
    let b = known_after a spec.processors in
    let see_a = Sees-seen_after "source" [] [] spec.sources (λ id. refl) in
    let see_b = Sees-seen_after "processor" _ a spec.processors see_a in
    let first = duplicate_iff "source" [] [] spec.sources (λ id. refl) tt in
    let second = duplicate_iff "processor" _ a spec.processors see_a in
    let third = duplicate_iff "sink" _ b spec.sinks see_b in
    (
      λ h.
          let (xy, z) = (append_empty_iff _ _).0 h in
          let (x, y) = (append_empty_iff _ _).0 xy in
          let d = second (first.0 x) in (third (d.0 y)).0 z,
      λ h.
          let d_b = AreDistinct-known_after b spec.sinks h in
          let d_a = AreDistinct-known_after a spec.processors d_b in
          (append_empty_iff _ _).1
            ((append_empty_iff _ _).1 (first.1 d_a, (second d_a).1 d_b), (third d_b).1 h),
    )

pub details_iff :
    (quote : String → String) (spec : Spec)
    → (validate_details quote spec ≡ []) ↔ (
        All HasHealthPort spec.sources
        × AreConnected (known_after [] spec.sources) spec.processors
        × All (IsConnected (inner_ids spec)) spec.sinks)
unfolding validate_details
details_iff quote spec =
    let known = known_after [] spec.sources in
    let all =
      both_iff _ _
        (both_iff _ _ (health_iff quote spec.sources) (processor_iff quote known spec.processors))
        (sink_iff quote (inner_ids spec) spec.sinks) in
    (λ h. let ((a, b), c) = all.0 h in (a, b, c), λ h. all.1 ((h.0, h.1), h.2))

pub command_lists_iff :
    (spec : Spec) → (validate_commands spec ≡ []) ↔ All IsLaunchable (all_components spec)
unfolding validate_commands
command_lists_iff spec =
    let each =
      both_iff _ _
        (both_iff _ _ (commands_iff "source" spec.sources)
          (commands_iff "processor" spec.processors))
        (commands_iff "sink" spec.sinks) in
    let parts = All-append_iff IsLaunchable (spec.sources ++ spec.processors) spec.sinks in
    let front = All-append_iff IsLaunchable spec.sources spec.processors in
    (
      λ h. let (xy, z) = each.0 h in parts.1 (front.1 xy, z),
      λ h. let (xy, z) = parts.0 h in each.1 (front.0 xy, z),
    )
