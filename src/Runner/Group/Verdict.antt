-- ===== src/Runner/Group/Verdict.antt =====
-- What the final status of a run says of its edges.
use mathlib.Core.List.{append-nil}
use flowctl.Prelude.{
  ◌≡◌, refl, ap, ◌∙◌, sym, Bool, true, false, ◌||◌, Option, none, some, List, [], ◌∷◌, ◌++◌, ◌⊎◌,
  arith, if◌then◌else◌, any, All, inl, inr,
}
use flowctl.Proto.Enums.{RunStatus}
use flowctl.Runner.Stream.{DeliveryError, is_canceled, is_deadline}
use flowctl.Runner.Lifecycle.{
  RunError, delivery_failed, interrupted, returned, finish_run, clean_result,
}
use flowctl.Runner.Group.{
  Wake, GroupEvent, ended, cancelled, Group, new_group, group_step, run_group, wait, terminal,
  signal, context_done, Ending, blocked, concluded, settle, conclude,
}

-- An edge failed.
abbrev pub is_failure : GroupEvent → Bool
is_failure (ended none) = false
is_failure (ended (some e)) = true
is_failure cancelled = false

-- The error of the first edge that failed.
unfoldable pub first_failure : List GroupEvent → Option DeliveryError
first_failure [] = none
first_failure (ended (some e) ∷ es) = some e
first_failure (ended none ∷ es) = first_failure es
first_failure (cancelled ∷ es) = first_failure es

-- The end of an edge, with no error of the kind "canceled".
abbrev pub IsRegular : GroupEvent → Type 0
IsRegular (ended none) = Unit
IsRegular (ended (some e)) = is_canceled e.err ≡ false
IsRegular cancelled = ⊥

-- The end of an edge that the run's cancellation brought about, or that is no error.
abbrev pub IsExcused : GroupEvent → Type 0
IsExcused (ended none) = Unit
IsExcused (ended (some e)) = (is_canceled e.err || is_deadline e.err) ≡ true
IsExcused cancelled = Unit

-- The error that a group reports.
abbrev reported : Option DeliveryError → Option DeliveryError
reported none = none
reported (some e) = if is_canceled e.err then none else some e

run_group-first :
    (g : Group) (e : DeliveryError) (es : List GroupEvent)
    → g.first ≡ some e
    → (run_group g es).first ≡ some e
unfolding run_group
run_group-first g e [] h = h
run_group-first g e (cancelled ∷ es) h = run_group-first (group_step g cancelled) e es h
run_group-first g e (ended result ∷ es) h =
    run_group-first (group_step g (ended result)) e es (ground arith)

group_step_excused :
    (e : DeliveryError)
    → (is_canceled e.err || is_deadline e.err) ≡ true
    → group_step (record { first = none; context_done = true }) (ended (some e))
      ≡ record { first = none; context_done = true }
unfolding group_step
group_step_excused e h = ground arith

run_group_excused :
    (es : List GroupEvent)
    → All IsExcused es
    → (run_group (record { first = none; context_done = true }) es).first ≡ none
unfolding run_group
run_group_excused [] h = refl
run_group_excused (cancelled ∷ es) (_, h) = run_group_excused es h
run_group_excused (ended none ∷ es) (_, h) = run_group_excused es h
run_group_excused (ended (some e) ∷ es) (x, h) =
    ap (λ g. (run_group g es).first) (group_step_excused e x) ∙ run_group_excused es h

-- Before a cancellation the first failure is what the group keeps.
run_group_regular :
    (es rest : List GroupEvent)
    → All IsRegular es
    → ((first_failure es ≡ none)
        × (any is_failure es ≡ false)
        × (run_group new_group (es ++ rest) ≡ run_group new_group rest))
      ⊎ ((any is_failure es ≡ true)
          × (e : DeliveryError) × (first_failure es ≡ some e)
          × (is_canceled e.err ≡ false)
          × ((run_group new_group (es ++ rest)).first ≡ some e))
unfolding run_group first_failure
run_group_regular [] rest h = inl (refl, refl, refl)
run_group_regular (cancelled ∷ es) rest (x, h) = absurd x
run_group_regular (ended none ∷ es) rest (_, h) = run_group_regular es rest h
run_group_regular (ended (some e) ∷ es) rest (x, h) = inr (
  refl,
  e,
  refl,
  x,
  run_group-first (record { first = some e; context_done = true }) e (es ++ rest) refl,
)

wait-reported :
    (es : List GroupEvent) (o : Option DeliveryError)
    → (run_group new_group es).first ≡ o
    → wait es ≡ reported o
unfolding wait
wait-reported es none h = rw (h, wait)
wait-reported es (some e) h = rw (h, wait)

wait_failed :
    (es : List GroupEvent) (e : DeliveryError)
    → is_canceled e.err ≡ false
    → (run_group new_group es).first ≡ some e
    → wait es ≡ some e
wait_failed es e regular h = wait-reported es (some e) h ∙ rw regular refl

-- A cancellation after the edges that ended by themselves, and then edges that end because of it.
wait_stopped :
    (before after : List GroupEvent)
    → All IsRegular before
    → All IsExcused after
    → wait (before ++ cancelled ∷ after) ≡ first_failure before
unfolding run_group
wait_stopped before after h k = elim (run_group_regular before (cancelled ∷ after) h) [
  | inl (clean, _, same) ↦
      wait-reported (before ++ cancelled ∷ after) none
        (ap (λ g. g.first) same ∙ run_group_excused after k)
      ∙ sym clean
  | inr (bad, e, earliest, regular, first) ↦
      wait_failed (before ++ cancelled ∷ after) e regular first ∙ sym earliest
]

wait_uncancelled : (es : List GroupEvent) → All IsRegular es → wait es ≡ first_failure es
unfolding run_group
wait_uncancelled es h = elim (run_group_regular es [] h) [
  | inl (clean, _, same) ↦
      wait-reported es none
        (ap (λ l. (run_group new_group l).first) (sym (append-nil es)) ∙ ap (λ g. g.first) same)
      ∙ sym clean
  | inr (bad, e, earliest, regular, first) ↦
      wait_failed es e regular (rw (append-nil es) at first) ∙ sym earliest
]

no_failure : (es : List GroupEvent) → any is_failure es ≡ false → first_failure es ≡ none
unfolding first_failure
no_failure [] h = refl
no_failure (cancelled ∷ es) h = no_failure es h
no_failure (ended none ∷ es) h = no_failure es h
no_failure (ended (some e) ∷ es) h = absurd (cc h)

abbrev pub status_for : RunStatus → Option DeliveryError → RunStatus
status_for otherwise none = otherwise
status_for otherwise (some e) = RunStatus.failed

abbrev pub error_for : Option RunError → Option DeliveryError → Option RunError
error_for otherwise none = otherwise
error_for otherwise (some e) = some (delivery_failed e)

-- The end of Run comes to a status and a delivery error, and Run returns this error, or else `clean`.
abbrev pub EndsWith :
    (RunStatus → Bool)
    → (embedded : Bool) → Wake
    → Ending
    → RunStatus
    → Option RunError
    → Option DeliveryError
    → Type 0
EndsWith records embedded wake ending otherwise clean failure =
    (ending ≡ concluded (status_for otherwise failure) failure)
    × ((finish_run records embedded wake ending).1 ≡ returned (error_for clean failure))

ends_completed :
    (records : RunStatus → Bool) (embedded : Bool) (failure : Option DeliveryError)
    → EndsWith records embedded terminal
        (conclude terminal false false failure)
        RunStatus.completed
        none
        failure
unfolding conclude settle finish_run clean_result
ends_completed records embedded none = (refl, refl)
ends_completed records embedded (some e) = (refl, refl)

ends_signalled :
    (records : RunStatus → Bool) (embedded : Bool) (failure : Option DeliveryError)
    → EndsWith records embedded signal
        (conclude signal true false failure)
        RunStatus.stopped
        (some interrupted)
        failure
unfolding conclude settle finish_run clean_result
ends_signalled records embedded none = (refl, refl)
ends_signalled records embedded (some e) = (refl, refl)

ends_cancelled :
    (records : RunStatus → Bool) (embedded : Bool) (failure : Option DeliveryError)
    → EndsWith records embedded context_done
        (conclude context_done true false failure)
        RunStatus.stopped
        none
        failure
unfolding conclude settle finish_run clean_result
ends_cancelled records embedded none = (refl, refl)
ends_cancelled records embedded (some e) = (refl, refl)

-- Where no edge error is of the kind "canceled", a run that delivers and whose delivery wakes it,
-- before any cancellation, ends as failed, with the error of the first edge that failed, or else as
-- completed, with none. If a signal or the cancelled context wakes it, and the edges that end after
-- the cancellation have no error but that, it ends as failed, with the error of the first edge that
-- failed before, or else as stopped; it then returns the signal's error for a signal, and none for
-- the cancelled context.
pub verdict :
    (records : RunStatus → Bool) (embedded : Bool) (before after : List GroupEvent)
    → All IsRegular before
    → All IsExcused after
    → EndsWith records embedded terminal
        (conclude terminal false false (wait before))
        RunStatus.completed
        none
        (first_failure before)
      × EndsWith records embedded signal
          (conclude signal true false (wait (before ++ cancelled ∷ after)))
          RunStatus.stopped
          (some interrupted)
          (first_failure before)
      × EndsWith records embedded context_done
          (conclude context_done true false (wait (before ++ cancelled ∷ after)))
          RunStatus.stopped
          none
          (first_failure before)
verdict records embedded before after h k =
    let ends = wait_uncancelled before h in
    let stops = wait_stopped before after h k in
    (
      rw ends (ends_completed records embedded (first_failure before)),
      rw stops (ends_signalled records embedded (first_failure before)),
      rw stops (ends_cancelled records embedded (first_failure before)),
    )

-- If the result of delivery is what wakes a run that was cancelled, and no edge failed, the run takes
-- the result twice from a channel that receives it once, and waits for ever.
pub cancelled_run_blocks :
    (before after : List GroupEvent)
    → All IsRegular before
    → All IsExcused after
    → any is_failure before ≡ false
    → conclude terminal true false (wait (before ++ cancelled ∷ after)) ≡ blocked
unfolding conclude settle
cancelled_run_blocks before after h k clean =
    rw (wait_stopped before after h k ∙ no_failure before clean, conclude) refl

-- An edge that fails with an error of the kind "canceled", while nothing was cancelled and no edge
-- had failed, makes the run completed with no error, whatever other edges report after it.
pub canceled_failure_completes :
    (before after : List GroupEvent) (e : DeliveryError)
    → All IsRegular before
    → any is_failure before ≡ false
    → is_canceled e.err ≡ true
    → conclude terminal false false (wait (before ++ ended (some e) ∷ after))
      ≡ concluded RunStatus.completed none
unfolding run_group conclude settle
canceled_failure_completes before after e h clean kind =
    elim (run_group_regular before (ended (some e) ∷ after) h) [
      | inl (_, _, same) ↦
          let kept =
            run_group-first (record { first = some e; context_done = true }) e after refl in
          let nothing : wait (before ++ ended (some e) ∷ after) ≡ none =
            wait-reported (before ++ ended (some e) ∷ after) (some e)
              (ap (λ g. g.first) same ∙ kept)
            ∙ rw kind in
          rw (nothing, conclude) refl
      | inr (bad, e', earliest, regular, first) ↦ cc
    ]
