-- ===== src/Runner/Delivery/Chain.antt =====
-- When the forwarding of a source's events, or of one processor's to the next, succeeds.
use flowctl.Prelude.{
  String, ◌≡◌, ◌↔◌, ◌⊎◌, inl, inr, Bool, true, false, Option, none, List, [], ◌∷◌, ◌++◌, arith,
  Bool-cases, Option-cases,
}
use mathlib.Core.List.{append_assoc, append-nil}
use flowctl.Runner.Stream.{Event, Cause, eof, DeliveryError, is_eof, Incoming, ProcessStream}
use flowctl.Runner.Delivery.{forward_loop, forward_source, forward}
use flowctl.Runner.Delivery.Acknowledged.{is_eof-eq}

-- The processor's stream takes the events one after the other, when it was sent `log` before.
abbrev pub Forwards : ProcessStream → List Event → List Event → Type 0
Forwards to log [] = Unit
Forwards to log (e ∷ es) = (to.send log e ≡ none) × Forwards to (log ++ e ∷ []) es

module _ (from_id to_id kind : String) (to : ProcessStream)
    (finish : List Event → Option DeliveryError) where
  loop-Forwards :
      (log es : List Event)
      → forward_loop from_id to_id kind to finish log es ≡ none
      → Forwards to log es × (finish (log ++ es) ≡ none)
  unfolding forward_loop
  loop-Forwards log [] h = (tt, rw (append-nil log) h)
  loop-Forwards log (e ∷ es) h = elim (Option-cases (to.send log e)) [
    | inl sent ↦
        let (all, done) = loop-Forwards (log ++ e ∷ []) es (rw (sent, forward_loop) at h) in
        ((sent, all), rw (append_assoc log (e ∷ []) es) at done)
    | inr (err, lost) ↦ absurd (ground arith)
  ]

  loop_of_Forwards :
      (log es : List Event)
      → Forwards to log es
      → finish (log ++ es) ≡ none
      → forward_loop from_id to_id kind to finish log es ≡ none
  unfolding forward_loop
  loop_of_Forwards log [] f h = rw (append-nil log) at h
  loop_of_Forwards log (e ∷ es) (sent, f) h =
      rw (sent, forward_loop)
        (loop_of_Forwards (log ++ e ∷ []) es f (rw (append_assoc log (e ∷ []) es) h))

-- What the end of a source's stream must be.
abbrev pub EndsWell : Bool → Bool → Cause → Type 0
EndsWell live bounded ending = (ending ≡ eof) × ((bounded ≡ true) ⊎ (live ≡ false))

-- The forwarding of a source to the first processor succeeds exactly if the source's stream ends
-- regularly, the processor's stream takes every event in order and can be closed after them, and the
-- source is declared bounded or the run was cancelled before the end.
forward_source_iff :
    (live bounded : Bool) (from_id to_id : String) (to : ProcessStream) (from : Incoming)
    → (forward_source live bounded from_id to_id to from ≡ none) ↔ (
        EndsWell live bounded from.ending
        × Forwards to [] from.events
        × (to.close_send from.events ≡ none))
unfolding forward_source
forward_source_iff live bounded from_id to_id to from = (
  λ h.
      let (all, done) = loop-Forwards from_id to_id "source-processor" to _ [] from.events h in
      elim (Bool-cases (is_eof from.ending)) [
        | inl ended ↦ ((is_eof-eq from.ending ended, ground arith), all, ground arith)
        | inr broken ↦ absurd (ground arith)
      ],
  λ (ends, all, closed).
      loop_of_Forwards from_id to_id "source-processor" to _ [] from.events all (ground arith),
)

-- The forwarding of one processor to the next succeeds exactly if the first one's stream ends
-- regularly and the second one's takes every event in order and can be closed after them.
forward_iff :
    (from_id to_id : String) (to : ProcessStream) (from : Incoming)
    → (forward from_id to_id to from ≡ none)
      ↔ ((from.ending ≡ eof) × Forwards to [] from.events × (to.close_send from.events ≡ none))
unfolding forward
forward_iff from_id to_id to from = (
  λ h.
      let (all, done) = loop-Forwards from_id to_id "processor-processor" to _ [] from.events h in
      elim (Bool-cases (is_eof from.ending)) [
        | inl ended ↦ (is_eof-eq from.ending ended, all, ground arith)
        | inr broken ↦ absurd (ground arith)
      ],
  λ (ended, all, closed).
      loop_of_Forwards from_id to_id "processor-processor" to _ [] from.events all (ground arith),
)
