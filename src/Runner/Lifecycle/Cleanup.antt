-- ===== src/Runner/Lifecycle/Cleanup.antt =====
-- What Run of internal/runner/pipeline_runner.go has cleaned up and recorded when it returns.
use mathlib.Core.Path.{subst}
use flowctl.Prelude.{
  sym, ◌≡◌, ◌⊎◌, ◌∙◌, refl, Bool, true, false, not, none, some, List, [], ◌∷◌, arith, inl, inr,
  if◌then◌else◌, Bool-cases,
}
use flowctl.Proto.Enums.{RunStatus}
use flowctl.Runner.Lifecycle.{
  Action, RunError, Outcomes, returned, waits, Run, then_run, launch_components, run, after_plane,
  after_sync, after_plane_start,
}
use flowctl.Runner.Lifecycle.Closing.{
  components_left, plane_left, last_status, Fits, Closes, launch_components-Closes,
}

-- A run that is created is recorded.
abbrev pub is_created : List Action → Bool
is_created [] = false
is_created (Action.create_run ∷ more) = true
is_created (_ ∷ more) = is_created more

-- What holds of the whole of Run.
abbrev pub CleansUp : (RunStatus → Bool) → (plane : Bool) → Run → Type 0
CleansUp records plane (actions, waits) = Unit
CleansUp records plane (actions, returned e) =
    (components_left false actions ≡ false)
    × (plane_left plane actions ≡ false)
    × ((is_created actions ≡ false)
        ⊎ ((status : RunStatus) × (last_status none actions ≡ some (status, records status))
            × Fits e status))

launched-CleansUp :
    (records : RunStatus → Bool) (plane : Bool) (r : Run)
    → Closes records false plane r
    → CleansUp records plane r
launched-CleansUp records plane (actions, waits) h = tt
launched-CleansUp records plane (actions, returned e) (down, off, (status, last, fits)) =
    (down, off, inr (status, last none, fits))

before_run :
    (records : RunStatus → Bool) (plane plane' : Bool) (a : Action) (r : Run)
    → ((m : List Action) → components_left false (a ∷ m) ≡ components_left false m)
    → ((m : List Action) → plane_left plane (a ∷ m) ≡ plane_left plane' m)
    → ((m : List Action) → is_created (a ∷ m) ≡ is_created m)
    → ((m : List Action) → last_status none (a ∷ m) ≡ last_status none m)
    → CleansUp records plane' r
    → CleansUp records plane (then_run (a ∷ []) r)
before_run records plane plane' a (actions, waits) c p k l h = tt
before_run records plane plane' a (actions, returned e) c p k l (down, off, inl none_created) =
    (c actions ∙ down, p actions ∙ off, inl (k actions ∙ none_created))
before_run records plane plane' a (actions, returned e) c p k l
      (down, off, inr (status, last, fits)) =
    (c actions ∙ down, p actions ∙ off, inr (status, l actions ∙ last, fits))

if-CleansUp :
    (records : RunStatus → Bool) (plane b : Bool) (x y : Run)
    → (b ≡ true → CleansUp records plane x)
    → CleansUp records plane y
    → CleansUp records plane (if b then x else y)
if-CleansUp records plane true x y h k = h refl
if-CleansUp records plane false x y h k = k

unready :
    (records : RunStatus → Bool) (embedded : Bool)
    → CleansUp records embedded
        (if embedded then Action.stop_plane ∷ [] else [], returned (some RunError.plane_not_ready))
unready records true = (refl, refl, inl refl)
unready records false = (refl, refl, inl refl)

module _ (o : Outcomes) where
  after_plane-CleansUp : CleansUp o.records o.embedded (after_plane o)
  unfolding after_plane
  after_plane-CleansUp =
      if-CleansUp o.records o.embedded (not o.plane_ready) _ (launch_components o)
        (λ e. unready o.records o.embedded)
        (launched-CleansUp o.records o.embedded (launch_components o) (launch_components-Closes o))

  module _ (embedded : o.embedded ≡ true) where
    after_sync-CleansUp : CleansUp o.records true (after_sync o)
    unfolding after_sync
    after_sync-CleansUp =
        if-CleansUp o.records true (not o.endpoint_syncs)
          (Action.stop_plane ∷ [], returned (some RunError.endpoint_not_synced))
          (then_run (Action.await_plane ∷ []) (after_plane o)) (λ e. (refl, refl, inl refl))
          (before_run o.records true true Action.await_plane (after_plane o) (λ m. refl) (λ m. refl)
            (λ m. refl) (λ m. refl)
            (subst (λ b. CleansUp o.records b (after_plane o)) embedded after_plane-CleansUp))

    after_plane_start-CleansUp :
        o.plane_starts ≡ true → CleansUp o.records true (after_plane_start o)
    unfolding after_plane_start
    after_plane_start-CleansUp starts =
        if-CleansUp o.records true (not o.plane_starts)
          ([], returned (some RunError.plane_not_started))
          (then_run (Action.sync_endpoint ∷ []) (after_sync o)) (λ e. absurd (ground arith))
          (before_run o.records true true Action.sync_endpoint (after_sync o) (λ m. refl)
            (λ m. refl) (λ m. refl) (λ m. refl) after_sync-CleansUp)

  -- What Run does for an embedded control plane, and for an external one.
  abbrev chosen : Bool → Run
  chosen b =
      if b
      then then_run (Action.start_plane ∷ []) (after_plane_start o)
      else then_run (Action.await_plane ∷ []) (after_plane o)

  -- When Run returns, it has called StopAll if it had called for the start of the components, and
  -- has stopped the embedded control plane, unless that one's own start failed; and if it created a
  -- run, the last status that it sent is completed or stopped where Run returns no error, stopped
  -- where it returns the signal's, and failed where it returns any other. The control plane has
  -- recorded it if that update reached it.
  pub run-CleansUp : (o.embedded ≡ true → o.plane_starts ≡ true) → CleansUp o.records false (run o)
  unfolding run
  run-CleansUp starts = elim (Bool-cases o.embedded) [
    | inl embedded ↦
        subst (λ b. CleansUp o.records false (chosen b)) (sym embedded)
          (before_run o.records false true Action.start_plane (after_plane_start o) (λ m. refl)
            (λ m. refl) (λ m. refl) (λ m. refl)
            (after_plane_start-CleansUp embedded (starts embedded)))
    | inr external ↦
        subst (λ b. CleansUp o.records false (chosen b)) (sym external)
          (before_run o.records false false Action.await_plane (after_plane o) (λ m. refl)
            (λ m. refl) (λ m. refl) (λ m. refl)
            (subst (λ b. CleansUp o.records b (after_plane o)) external after_plane-CleansUp))
  ]
