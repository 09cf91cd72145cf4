-- ===== src/Runner/Delivery/Direct.antt =====
-- An edge from a source directly to sinks: the fan-out of what sourceReceiver hands on.
use flowctl.Prelude.{String, ◌≡◌, ◌≢◌, ◌↔◌, Bool, true, false, Option, none, some, List, arith, All}
use flowctl.Runner.Stream.{Cause, eof, Incoming, SinkStream, received_ending, source_receiver}
use flowctl.Runner.Delivery.{fan_out}
use flowctl.Runner.Delivery.Acknowledged.{Acknowledges, fan_out_iff}

received_ending_iff :
    (context : Option Cause) (bounded : Bool) (ending : Cause)
    → context ≢ some eof
    → (received_ending context bounded ending ≡ eof)
      ↔ ((context ≡ none) × (bounded ≡ true) × (ending ≡ eof))
unfolding received_ending
received_ending_iff none true ending h = ground arith
received_ending_iff none false ending h = ground arith
received_ending_iff (some e) bounded ending h = ground arith

-- A delivery from a source directly to sinks succeeds exactly if the source's stream ends regularly,
-- the source is declared bounded, the run was not cancelled at that time, and every sink took the
-- events whose type it accepts and acknowledges exactly their number. The error of a context is none
-- but the end of a stream.
direct_iff :
    (from_id kind : String) (context : Option Cause) (bounded : Bool) (from : Incoming)
    (sinks : List SinkStream)
    → context ≢ some eof
    → (fan_out from_id kind (source_receiver context bounded from) sinks ≡ none) ↔ (
        (context ≡ none)
        × (bounded ≡ true)
        × (from.ending ≡ eof)
        × All (Acknowledges from.events) sinks)
unfolding source_receiver
direct_iff from_id kind context bounded from sinks h =
    let (to, back) = fan_out_iff from_id kind (source_receiver context bounded from) sinks in
    let (ends, end_of) = received_ending_iff context bounded from.ending h in
    (
      λ done.
          let (ended, all) = to done in
          let (live, finite, regular) = ends ended in (live, finite, regular, all),
      λ (live, finite, regular, all). back (end_of (live, finite, regular), all),
    )
