-- ===== src/Runner/Delivery/Acknowledged.antt =====
-- When a fan-out succeeds.
use mathlib.Core.List.{append_assoc, append-nil}
use flowctl.Prelude.{
  ℕ, ◌+◌, String, ◌≡◌, refl, ◌≢◌, ◌↔◌, ◌⊎◌, inl, inr, Bool, true, false, Option, none, List, [],
  ◌∷◌, ◌++◌, arith, if◌then◌else◌, map, length, length-append, All, select, Bool-cases,
  Option-cases,
}
use flowctl.Prelude.Int.{pos}
use flowctl.Runner.Stream.{
  Event, Cause, eof, DeliveryError, is_eof, Incoming, CloseReply, failed, missing, response,
  SinkStream, accepts,
}
use flowctl.Runner.Delivery.{
  Lane, new_lane, Progress, going, stuck, offer, ack_error, close_all, fan_out_loop, fan_out,
}

-- The events that a sink is to receive.
abbrev pub wanted : SinkStream → List Event → List Event
wanted sink events = select (λ e. accepts sink.accepted e.type) events

-- The stream takes the events one after the other, when it was sent `log` before.
abbrev pub Takes : SinkStream → List Event → List Event → Type 0
Takes sink log [] = Unit
Takes sink log (e ∷ es) = (sink.send log e ≡ none) × Takes sink (log ++ e ∷ []) es

-- Closed after the events of `log`, the stream acknowledges as many, with no failure and no error.
abbrev pub AcksExactly : SinkStream → List Event → Type 0
AcksExactly sink log =
    sink.close_and_recv log
    ≡ response (record { events_consumed = pos (length log); events_failed = pos 0; errors = 0 })

exact_response : ℕ → CloseReply
exact_response n = response (record { events_consumed = pos n; events_failed = pos 0; errors = 0 })

ack_error-none : (n : ℕ) (reply : CloseReply) → ack_error n reply ≡ none → reply ≡ exact_response n
unfolding ack_error exact_response
ack_error-none n (failed err) h = cc
ack_error-none n missing h = cc
ack_error-none n (response r) h = ground arith

ack_error_exact : (n : ℕ) (reply : CloseReply) → reply ≡ exact_response n → ack_error n reply ≡ none
unfolding ack_error exact_response
ack_error_exact n reply h = rw h (ground arith)

-- The counter of a lane is the number of events that its stream was sent.
abbrev Counted : Lane → Type 0
Counted lane = lane.sent ≡ length lane.log

abbrev Acked : Lane → Type 0
Acked lane = AcksExactly lane.sink lane.log

-- What is still to come for a lane goes well: the rest is taken, and all is acknowledged.
abbrev Completes : List Event → Lane → Type 0
Completes es lane =
    Takes lane.sink lane.log (wanted lane.sink es)
    × AcksExactly lane.sink (lane.log ++ wanted lane.sink es)

abbrev TakesOne : Event → Lane → Type 0
TakesOne e lane = accepts lane.sink.accepted e.type ≡ true → lane.sink.send lane.log e ≡ none

offered : Event → Lane → Lane
offered e lane =
    let takes = accepts lane.sink.accepted e.type in
    record lane {
      sent = if takes then lane.sent + 1 else lane.sent;
      log = if takes then lane.log ++ e ∷ [] else lane.log;
    }

Progress-cases :
    (p : Progress)
    → ((lanes : List Lane) × (p ≡ going lanes)) ⊎ ((err : Option DeliveryError) × (p ≡ stuck err))
Progress-cases (going lanes) = inl (lanes, refl)
Progress-cases (stuck err) = inr (err, refl)

module _ (from_id kind : String) where
  close_all-Acked :
      (lanes : List Lane)
      → All Counted lanes
      → close_all from_id kind lanes ≡ none
      → All Acked lanes
  unfolding close_all exact_response
  close_all-Acked [] c h = tt
  close_all-Acked (lane ∷ lanes) (n, c) h =
      elim (Option-cases (ack_error lane.sent (lane.sink.close_and_recv lane.log))) [
        | inl fine ↦ (
          rw (← n) (ack_error-none lane.sent (lane.sink.close_and_recv lane.log) fine),
          close_all-Acked lanes c (ground arith),
        )
        | inr (err, bad) ↦ absurd (ground arith)
      ]

  close_all_of_Acked :
      (lanes : List Lane)
      → All Counted lanes
      → All Acked lanes
      → close_all from_id kind lanes ≡ none
  unfolding close_all exact_response
  close_all_of_Acked [] c h = refl
  close_all_of_Acked (lane ∷ lanes) (n, c) (a, h) = ground (
    arith,
    ack_error_exact lane.sent (lane.sink.close_and_recv lane.log) (rw n a),
    close_all_of_Acked lanes c h,
  )

  offer-going :
      (e : Event) (lanes : List Lane)
      → All (TakesOne e) lanes
      → offer from_id kind e lanes ≡ going (map (offered e) lanes)
  unfolding offer offered
  offer-going e [] h = refl
  offer-going e (lane ∷ lanes) (t, h) = ground (arith, offer-going e lanes h)

  offer-takes :
      (e : Event) (lanes lanes' : List Lane)
      → offer from_id kind e lanes ≡ going lanes'
      → All (TakesOne e) lanes
  unfolding offer
  offer-takes e [] lanes' h = tt
  offer-takes e (lane ∷ lanes) lanes' h = elim (Progress-cases (offer from_id kind e lanes)) [
    | inl (rest, on) ↦ (λ takes. ground arith, offer-takes e lanes rest on)
    | inr (err, off) ↦ absurd (ground arith)
  ]

  offer-ne-stuck : (e : Event) (lanes : List Lane) → offer from_id kind e lanes ≢ stuck none
  unfolding offer
  offer-ne-stuck e [] = cc
  offer-ne-stuck e (lane ∷ lanes) = ground (arith, offer-ne-stuck e lanes)

All-map-Counted :
    (e : Event) (lanes : List Lane) → All Counted lanes → All Counted (map (offered e) lanes)
unfolding offered
All-map-Counted e [] h = tt
All-map-Counted e (lane ∷ lanes) (n, h) =
    (ground (arith, length-append lane.log (e ∷ [])), All-map-Counted e lanes h)

-- The stream takes the events after `log`, and acknowledges all.
abbrev Finishes : SinkStream → List Event → List Event → Type 0
Finishes sink log es = Takes sink log es × AcksExactly sink (log ++ es)

-- The first event, and then the rest: `takes` says whether the sink accepts the first one.
finish-first :
    (takes : Bool) (sink : SinkStream) (log : List Event) (e : Event) (es : List Event)
    → (takes ≡ true → sink.send log e ≡ none)
    → Finishes sink (if takes then log ++ e ∷ [] else log) es
    → Finishes sink log (if takes then e ∷ es else es)
finish-first true sink log e es t (all, acked) =
    ((t refl, all), rw (append_assoc log (e ∷ []) es) at acked)
finish-first false sink log e es t h = h

finish-rest :
    (takes : Bool) (sink : SinkStream) (log : List Event) (e : Event) (es : List Event)
    → Finishes sink log (if takes then e ∷ es else es)
    → (takes ≡ true → sink.send log e ≡ none)
      × Finishes sink (if takes then log ++ e ∷ [] else log) es
finish-rest true sink log e es ((t, all), acked) =
    (λ _. t, (all, rw (append_assoc log (e ∷ []) es) acked))
finish-rest false sink log e es h = (λ no. cc, h)

All-first :
    (e : Event) (es : List Event) (lanes : List Lane)
    → All (TakesOne e) lanes
    → All (Completes es) (map (offered e) lanes)
    → All (Completes (e ∷ es)) lanes
unfolding offered
All-first e es [] t h = tt
All-first e es (lane ∷ lanes) (t, ts) (h, hs) = (
  finish-first (accepts lane.sink.accepted e.type) lane.sink lane.log e (wanted lane.sink es) t h,
  All-first e es lanes ts hs,
)

All-rest :
    (e : Event) (es : List Event) (lanes : List Lane)
    → All (Completes (e ∷ es)) lanes
    → All (TakesOne e) lanes × All (Completes es) (map (offered e) lanes)
unfolding offered
All-rest e es [] h = (tt, tt)
All-rest e es (lane ∷ lanes) (h, hs) =
    let (t, c) =
      finish-rest (accepts lane.sink.accepted e.type) lane.sink lane.log e (wanted lane.sink es)
        h in
    let (ts, cs) = All-rest e es lanes hs in ((t, ts), (c, cs))

All-ended : (lanes : List Lane) → All Acked lanes → All (Completes []) lanes
All-ended [] h = tt
All-ended (lane ∷ lanes) (a, h) = ((tt, rw (append-nil lane.log) a), All-ended lanes h)

All-Acked : (lanes : List Lane) → All (Completes []) lanes → All Acked lanes
All-Acked [] h = tt
All-Acked (lane ∷ lanes) (c, h) = (rw (append-nil lane.log) at (c.1), All-Acked lanes h)

pub is_eof-eq : (c : Cause) → is_eof c ≡ true → c ≡ eof
is_eof-eq eof h = refl
is_eof-eq c h = ground arith

module _ (from_id kind : String) (ending : Cause) where
  loop-Completes :
      (es : List Event) (lanes : List Lane)
      → All Counted lanes
      → fan_out_loop from_id kind ending es lanes ≡ none
      → (ending ≡ eof) × All (Completes es) lanes
  unfolding fan_out_loop
  loop-Completes [] lanes c h = elim (Bool-cases (is_eof ending)) [
    | inl ended ↦ (
      is_eof-eq ending ended,
      All-ended lanes (close_all-Acked from_id kind lanes c (rw (ended, ◌≡◌) at h)),
    )
    | inr broken ↦ absurd (ground arith)
  ]
  loop-Completes (e ∷ es) lanes c h = elim (Progress-cases (offer from_id kind e lanes)) [
    | inl (lanes', on) ↦
        let takes = offer-takes from_id kind e lanes lanes' on in
        let same = offer-going from_id kind e lanes takes in
        let (ended, rest) =
          loop-Completes es (map (offered e) lanes) (All-map-Counted e lanes c)
            (rw (same, fan_out_loop) at h) in
        (ended, All-first e es lanes takes rest)
    | inr (err, off) ↦ absurd (ground (arith, offer-ne-stuck from_id kind e lanes))
  ]

  loop_of_Completes :
      (es : List Event) (lanes : List Lane)
      → All Counted lanes
      → ending ≡ eof
      → All (Completes es) lanes
      → fan_out_loop from_id kind ending es lanes ≡ none
  unfolding fan_out_loop
  loop_of_Completes [] lanes c ended h =
      rw ended (close_all_of_Acked from_id kind lanes c (All-Acked lanes h))
  loop_of_Completes (e ∷ es) lanes c ended h =
      let (takes, rest) = All-rest e es lanes h in
      rw (offer-going from_id kind e lanes takes, fan_out_loop)
        (loop_of_Completes es (map (offered e) lanes) (All-map-Counted e lanes c) ended rest)

Counted-new : (sinks : List SinkStream) → All Counted (map new_lane sinks)
Counted-new [] = tt
Counted-new (sink ∷ sinks) = (refl, Counted-new sinks)

-- A sink took every event that it accepts, and acknowledged as many.
abbrev pub Acknowledges : List Event → SinkStream → Type 0
Acknowledges events sink =
    Takes sink [] (wanted sink events) × AcksExactly sink (wanted sink events)

All-sinks :
    (events : List Event) (sinks : List SinkStream)
    → All (Completes events) (map new_lane sinks) ↔ All (Acknowledges events) sinks
All-sinks events [] = (λ h. tt, λ h. tt)
All-sinks events (sink ∷ sinks) =
    let (to, from) = All-sinks events sinks in (λ (c, h). (c, to h), λ (c, h). (c, from h))

-- A fan-out succeeds exactly if its input ends regularly and every sink takes, in order, the events
-- whose type it accepts, and no others, and acknowledges exactly their number, with no failed event
-- and no error.
pub fan_out_iff :
    (from_id kind : String) (from : Incoming) (sinks : List SinkStream)
    → (fan_out from_id kind from sinks ≡ none)
      ↔ ((from.ending ≡ eof) × All (Acknowledges from.events) sinks)
unfolding fan_out
fan_out_iff from_id kind from sinks =
    let lanes = map new_lane sinks in
    let (to, back) = All-sinks from.events sinks in
    (
      λ h.
          let (ended, all) =
            loop-Completes from_id kind from.ending from.events lanes (Counted-new sinks) h in
          (ended, to all),
      λ h.
          loop_of_Completes from_id kind from.ending from.events lanes (Counted-new sinks) h.0
            (back h.1),
    )
