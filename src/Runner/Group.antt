-- ===== src/Runner/Group.antt =====
-- The error group that owns the edges (`launch`, `Wait`), and the choice that `Run` makes of the run's
-- final status. The group of golang.org/x/sync keeps the first error that a launched function returns
-- and cancels its context then, as its parent's cancellation does.
pub mod Verdict
use flowctl.Prelude.{
  Bool, true, false, ◌&&◌, ◌||◌, Option, none, some, List, [], ◌∷◌, if◌then◌else◌, is_some,
}
use flowctl.Proto.Enums.{RunStatus}
use flowctl.Runner.Stream.{Cause, DeliveryError, is_canceled, is_deadline}

-- What happens to a group, in order: an edge ends with its loop's result, or the run's context is
-- cancelled by the operator.
pub data GroupEvent : Type 0 where
  ended : Option DeliveryError → GroupEvent
  cancelled : GroupEvent

pub record Group : Type 0 where
  pub first : Option DeliveryError
  pub context_done : Bool

abbrev pub new_group : Group
new_group = record { first = none; context_done = false }

-- launch: once the context is done, an error that says so is no error.
unfoldable pub launched : Bool → Option DeliveryError → Option DeliveryError
launched done none = none
launched done (some e) = if done && (is_canceled e.err || is_deadline e.err) then none else some e

unfoldable pub group_step : Group → GroupEvent → Group
unfolding launched
group_step g cancelled = record g { context_done = true }
group_step g (ended result) = elim (launched g.context_done result) [
  | none ↦ g
  | some e ↦ record {
    first = elim g.first [ none ↦ some e | some e' ↦ some e' ];
    context_done = true;
  }
]

unfoldable pub run_group : Group → List GroupEvent → Group
unfolding group_step
run_group g [] = g
run_group g (e ∷ es) = run_group (group_step g e) es

-- Wait: the group's own Wait cancels the context before it returns, so the context is done here.
unfoldable pub wait : List GroupEvent → Option DeliveryError
unfolding run_group
wait events = elim (run_group new_group events).first [
  | none ↦ none
  | some e ↦ if is_canceled e.err then none else some e
]

-- What wakes the select of `Run`: the end of delivery, a signal, or the cancelled context of the run.
pub data Wake : Type 0 where
  terminal signal context_done : Wake

-- How the end of `Run` goes: it waits for ever, or it comes to a status and an error of delivery, if any.
-- What it then returns, for a signal too, is in Runner/Lifecycle.
pub data Ending : Type 0 where
  blocked : Ending
  concluded : RunStatus → Option DeliveryError → Ending

-- The step after the select. A run that is stopped, and delivers, takes the result of delivery from
-- the channel `terminal` (waitForTerminalOnStop), which receives one value and is never closed: it is
-- `none` here once that value has been taken.
unfoldable pub settle :
    RunStatus → Bool → Option (Option DeliveryError) → Option DeliveryError → Ending
settle RunStatus.stopped false none err = blocked
settle RunStatus.stopped false (some none) err = concluded RunStatus.stopped none
settle RunStatus.stopped false (some (some e)) err = concluded RunStatus.failed (some e)
settle status registration_only channel err = concluded status err

-- The select, and what follows it. `stopped` says that the run's context has an error when the result
-- of delivery is taken; `result` is what `Wait` returns.
unfoldable pub conclude : Wake → (stopped registration_only : Bool) → Option DeliveryError → Ending
unfolding settle
conclude terminal stopped registration_only (some e) =
    settle RunStatus.failed registration_only none (some e)
conclude terminal true registration_only none = settle RunStatus.stopped registration_only none none
conclude terminal false registration_only none =
    settle RunStatus.completed registration_only none none
conclude signal stopped registration_only result =
    settle RunStatus.stopped registration_only (some result) none
conclude context_done stopped registration_only result =
    settle RunStatus.stopped registration_only (some result) none
