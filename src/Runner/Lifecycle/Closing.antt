-- ===== src/Runner/Lifecycle/Closing.antt =====
-- How the parts of Run in internal/runner/pipeline_runner.go that follow the start of the
-- components clean up.
use flowctl.Prelude.{
  ◌≡◌, ◌⊎◌, ◌∙◌, refl, Bool, true, false, not, Option, none, some, List, [], ◌∷◌, inl, inr,
  if◌then◌else◌,
}
use flowctl.Proto.Enums.{RunStatus, failed, completed, stopped}
use flowctl.Runner.Stream.{DeliveryError}
use flowctl.Runner.Wiring.{WireError}
use flowctl.Runner.Group.{
  Wake, terminal, signal, context_done, Ending, blocked, concluded, settle, conclude,
}
use flowctl.Runner.Lifecycle.{
  Action, RunError, not_wired, interrupted, Outcomes, returned, waits, Run, then_run, shutdown,
  wiring_error, clean_result, finish_run, supervise, wire_components, launch_components,
  after_wiring, fails_with, after_registration, after_start,
}

-- Components were started and not stopped afterwards; likewise for the control plane.
abbrev pub components_left : Bool → List Action → Bool
components_left up [] = up
components_left up (Action.start_components ∷ more) = components_left true more
components_left up (Action.stop_components ∷ more) = components_left false more
components_left up (_ ∷ more) = components_left up more

abbrev pub plane_left : Bool → List Action → Bool
plane_left up [] = up
plane_left up (Action.start_plane ∷ more) = plane_left true more
plane_left up (Action.stop_plane ∷ more) = plane_left false more
plane_left up (_ ∷ more) = plane_left up more

-- The last status update, with whether it was recorded.
abbrev pub last_status : Option (RunStatus × Bool) → List Action → Option (RunStatus × Bool)
last_status status [] = status
last_status status (Action.update_run new recorded ∷ more) = last_status (some (new, recorded)) more
last_status status (_ ∷ more) = last_status status more

-- The statuses that fit a result.
abbrev pub Fits : Option RunError → RunStatus → Type 0
Fits none status = (status ≡ completed) ⊎ (status ≡ stopped)
Fits (some interrupted) status = status ≡ stopped
Fits (some _) status = status ≡ failed

-- What holds when the rest of the actions ends with a result, whatever was recorded before it.
abbrev pub Closes : (RunStatus → Bool) → (components plane : Bool) → Run → Type 0
Closes records components plane (actions, waits) = Unit
Closes records components plane (actions, returned e) =
    (components_left components actions ≡ false)
    × (plane_left plane actions ≡ false)
    × ((status : RunStatus) × ((before : Option (RunStatus × Bool))
          → last_status before actions ≡ some (status, records status))
        × Fits e status)

-- The statuses that fit the end of delivery.
abbrev Suits : Wake → Ending → Type 0
Suits wake blocked = Unit
Suits wake (concluded status (some e)) = status ≡ failed
Suits signal (concluded status none) = status ≡ stopped
Suits terminal (concluded status none) = (status ≡ completed) ⊎ (status ≡ stopped)
Suits context_done (concluded status none) = (status ≡ completed) ⊎ (status ≡ stopped)

conclude-Suits :
    (wake : Wake) (halted registration_only : Bool) (delivery : Option DeliveryError)
    → Suits wake (conclude wake halted registration_only delivery)
unfolding conclude settle
conclude-Suits terminal halted registration_only (some e) = refl
conclude-Suits terminal true true none = inr refl
conclude-Suits terminal true false none = tt
conclude-Suits terminal false registration_only none = inl refl
conclude-Suits signal halted true (some e) = refl
conclude-Suits signal halted true none = refl
conclude-Suits signal halted false (some e) = refl
conclude-Suits signal halted false none = refl
conclude-Suits context_done halted true (some e) = inr refl
conclude-Suits context_done halted true none = inr refl
conclude-Suits context_done halted false (some e) = refl
conclude-Suits context_done halted false none = inr refl

finish_run-Closes :
    (records : RunStatus → Bool) (embedded : Bool) (wake : Wake) (ending : Ending)
    → Suits wake ending
    → Closes records true embedded (finish_run records embedded wake ending)
unfolding finish_run shutdown clean_result
finish_run-Closes records embedded wake blocked h = tt
finish_run-Closes records true wake (concluded status (some e)) h =
    (refl, refl, (status, λ before. refl, h))
finish_run-Closes records false wake (concluded status (some e)) h =
    (refl, refl, (status, λ before. refl, h))
finish_run-Closes records true terminal (concluded status none) h =
    (refl, refl, (status, λ before. refl, h))
finish_run-Closes records false terminal (concluded status none) h =
    (refl, refl, (status, λ before. refl, h))
finish_run-Closes records true signal (concluded status none) h =
    (refl, refl, (status, λ before. refl, h))
finish_run-Closes records false signal (concluded status none) h =
    (refl, refl, (status, λ before. refl, h))
finish_run-Closes records true context_done (concluded status none) h =
    (refl, refl, (status, λ before. refl, h))
finish_run-Closes records false context_done (concluded status none) h =
    (refl, refl, (status, λ before. refl, h))

-- An action before, which takes the flags to those that hold after it.
then_run-Closes :
    (records : RunStatus → Bool) (components plane components' plane' : Bool) (a : Action) (r : Run)
    → ((m : List Action) → components_left components (a ∷ m) ≡ components_left components' m)
    → ((m : List Action) → plane_left plane (a ∷ m) ≡ plane_left plane' m)
    → ((before : Option (RunStatus × Bool))
        → (before' : Option (RunStatus × Bool)) × ((m : List Action)
            → last_status before (a ∷ m) ≡ last_status before' m))
    → Closes records components' plane' r
    → Closes records components plane (then_run (a ∷ []) r)
then_run-Closes records components plane components' plane' a (actions, waits) c p l h = tt
then_run-Closes records components plane components' plane' a (actions, returned e) c p l
      (down, off, (status, last, fits)) =
    (
      c actions ∙ down,
      p actions ∙ off,
      (status, λ before. (l before).1 actions ∙ last (l before).0, fits),
    )

-- An action that starts, stops and records nothing.
is_plain : Action → Bool
is_plain Action.start_plane = false
is_plain Action.stop_plane = false
is_plain Action.start_components = false
is_plain Action.stop_components = false
is_plain (Action.update_run status recorded) = false
is_plain _ = true

plain_action :
    (records : RunStatus → Bool) (components plane : Bool) (a : Action)
    → is_plain a ≡ true
    → (r : Run) → Closes records components plane r
    → Closes records components plane (then_run (a ∷ []) r)
unfolding is_plain
plain_action records components plane Action.start_plane h r c = cc
plain_action records components plane Action.stop_plane h r c = cc
plain_action records components plane Action.start_components h r c = cc
plain_action records components plane Action.stop_components h r c = cc
plain_action records components plane (Action.update_run status recorded) h r c = cc
plain_action records components plane a h r c =
    then_run-Closes records components plane components plane a r (λ m. refl) (λ m. refl)
      (λ before. (before, λ m. refl)) c

if-Closes :
    (records : RunStatus → Bool) (components plane b : Bool) (x y : Run)
    → Closes records components plane x
    → Closes records components plane y
    → Closes records components plane (if b then x else y)
if-Closes records components plane true x y h k = h
if-Closes records components plane false x y h k = k

fails_with-Closes :
    (records : RunStatus → Bool) (embedded : Bool) (e : RunError)
    → Fits (some e) failed
    → Closes records true embedded (fails_with records embedded e)
unfolding shutdown
fails_with-Closes records true e h = (refl, refl, (failed, λ before. refl, h))
fails_with-Closes records false e h = (refl, refl, (failed, λ before. refl, h))

-- Run calls start_components, and the control plane is up if it is embedded.
module _ (o : Outcomes) where
  supervise-Closes : Closes o.records true o.embedded (supervise o)
  unfolding supervise is_plain
  supervise-Closes =
      let ending = conclude o.wake o.stopped o.registration_only o.delivery in
      let rest = finish_run o.records o.embedded o.wake ending in
      then_run-Closes o.records true o.embedded true o.embedded
        (Action.update_run RunStatus.running (o.records RunStatus.running))
        (then_run (Action.wait_delivery ∷ []) rest) (λ m. refl) (λ m. refl)
        (λ before. (some (RunStatus.running, o.records RunStatus.running), λ m. refl))
        (plain_action o.records true o.embedded Action.wait_delivery refl rest (
          finish_run-Closes o.records o.embedded o.wake ending
            (conclude-Suits o.wake o.stopped o.registration_only o.delivery)))

  wired-Closes :
      (wired : Option WireError) → Closes o.records true o.embedded (after_wiring o wired)
  unfolding after_wiring is_plain
  wired-Closes none = supervise-Closes
  wired-Closes (some e) =
      let error = not_wired (wiring_error e o.streams) in
      plain_action o.records true o.embedded Action.stop_streams refl
        (then_run (Action.mark_failure ∷ []) (fails_with o.records o.embedded error))
        (plain_action o.records true o.embedded Action.mark_failure refl
          (fails_with o.records o.embedded error)
          (fails_with-Closes o.records o.embedded error refl))

  wire_components-Closes : Closes o.records true o.embedded (wire_components o)
  unfolding wire_components is_plain
  wire_components-Closes =
      if-Closes o.records true o.embedded o.registration_only (supervise o)
        (then_run (Action.wire ∷ []) (after_wiring o o.wire)) supervise-Closes
        (plain_action o.records true o.embedded Action.wire refl (after_wiring o o.wire)
          (wired-Closes o.wire))

  after_registration-Closes : Closes o.records true o.embedded (after_registration o)
  unfolding after_registration is_plain
  after_registration-Closes =
      if-Closes o.records true o.embedded (not o.components_register)
        (fails_with o.records o.embedded RunError.not_registered)
        (then_run (Action.enrich ∷ []) (wire_components o))
        (fails_with-Closes o.records o.embedded RunError.not_registered refl)
        (plain_action o.records true o.embedded Action.enrich refl (wire_components o)
          wire_components-Closes)

  after_start-Closes : Closes o.records true o.embedded (after_start o)
  unfolding after_start is_plain
  after_start-Closes =
      if-Closes o.records true o.embedded (not o.components_start)
        (fails_with o.records o.embedded RunError.not_launched)
        (then_run (Action.await_components ∷ []) (after_registration o))
        (fails_with-Closes o.records o.embedded RunError.not_launched refl)
        (plain_action o.records true o.embedded Action.await_components refl (after_registration o)
          after_registration-Closes)

  pub launch_components-Closes : Closes o.records false o.embedded (launch_components o)
  unfolding launch_components is_plain
  launch_components-Closes =
      let started = then_run (Action.start_components ∷ []) (after_start o) in
      plain_action o.records false o.embedded Action.create_run refl started (
        then_run-Closes o.records false o.embedded true o.embedded Action.start_components
          (after_start o) (λ m. refl) (λ m. refl) (λ before. (before, λ m. refl))
          after_start-Closes)
