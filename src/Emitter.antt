-- ===== src/Emitter.antt =====
-- services/runner-control/src/events/emitter.ts, `RunEventEmitter`: the events of one run, numbered
-- from zero. The clock, the schema of events and the sink are parameters; what they act on is a host
-- that they pass on.
pub mod Walk
pub mod Identities
pub mod Envelope
use secure_home_agent_platfo.Prelude.{
  ℕ, zero, suc, Option, none, some, List, [], ◌∷◌, ◌++◌, Str, text,
}
use secure_home_agent_platfo.Prelude.Maps
use secure_home_agent_platfo.Prelude.Maps.{Map}

pub record EventIdentity : Type 0 where
  pub run_id : Str
  pub adapter : Str
  pub generation : ℕ

-- A member of an event: a string, a number, or the JSON text of anything else.
pub data Value : Type 0 where
  string : Str → Value
  number : ℕ → Value
  document : Str → Value

pub data ClockAnswer : Type 0 where
  instant : Str → ClockAnswer
  clock_threw : Str → ClockAnswer

pub data Parsed (Event : Type 0) : Type 0 where
  data_of : Event → Parsed Event
  issues : Str → Parsed Event

-- How the sink ends: it took the event, it refused it, it threw, or the run was interrupted.
pub data SinkAnswer : Type 0 where
  landed : SinkAnswer
  conflict fenced threw interrupted : Str → SinkAnswer

pub data EmitReason : Type 0 where
  contract_invalid sink_failed stale_fence conflicting_replay : EmitReason

-- The outcome; or what `emit` throws, of the clock or of an interruption; or, where the fuel of the
-- model ends, that the walk past occupied identities goes on.
pub data EmitOutcome (Event : Type 0) : Type 0 where
  ok : Event → EmitOutcome Event
  not_ok : EmitReason → Str → EmitOutcome Event
  throws : Str → EmitOutcome Event
  goes_on : EmitOutcome Event

pub record RunEventEmitter (Event : Type 0) : Type 0 where
  pub identity : EventIdentity
  pub emitted : List Event
  pub sequence : ℕ

abbrev pub new : {Event : Type 0} → EventIdentity → RunEventEmitter Event
new identity = record { identity = identity; emitted = []; sequence = 0 }

-- The body with the envelope spread over it.
unfoldable pub candidate : EventIdentity → ℕ → Str → Map Value → Map Value
candidate i sequence timestamp body = Maps.set (text "adapter") (string i.adapter) (
    Maps.set (text "timestamp") (string timestamp) (
      Maps.set (text "sequence") (number sequence) (
        Maps.set (text "run_id") (string i.run_id) (
          Maps.set (text "contract_version") (string (text "1.0.0"))
            (Maps.set (text "contract_id") (string (text "run-event")) body)))))

unfoldable pub fallback : ClockAnswer → Str
fallback (instant t) = t
fallback (clock_threw why) = text "1970-01-01T00:00:00.000Z"

-- The sequence moves before the sink is called, and back when the sink refuses the fence.
abbrev pub advanced : {Event : Type 0} → RunEventEmitter Event → RunEventEmitter Event
advanced e = record e { sequence = suc e.sequence }

abbrev pub Emission : Type 0 → Type 0 → Type 0
Emission Host Event = RunEventEmitter Event × (Host × EmitOutcome Event)

-- What the answer of the sink makes of the emission; a conflict goes round again.
unfoldable pub on_answer :
    {Host Event : Type 0}
    → (RunEventEmitter Event → Host → Emission Host Event)
    → Event
    → RunEventEmitter Event
    → Host × SinkAnswer
    → Emission Host Event
on_answer again v e (h, landed) =
    (record e { emitted = e.emitted ++ v ∷ []; sequence = suc e.sequence }, (h, ok v))
on_answer again v e (h, conflict why) = again (advanced e) h
on_answer again v e (h, fenced why) = (e, (h, not_ok stale_fence why))
on_answer again v e (h, threw why) = (advanced e, (h, not_ok sink_failed why))
on_answer again v e (h, interrupted why) = (advanced e, (h, throws why))

module _ {Host Event : Type 0} (now : Str → Host → Host × ClockAnswer)
    (safe_parse : Map Value → Parsed Event)
    (sink : EventIdentity → ℕ → Event → Host → Host × SinkAnswer) where
  unfoldable pub envelope : Map Value → RunEventEmitter Event → Host → Host × Map Value
  envelope body e h =
      let (h', t) = now e.identity.run_id h in
      (h', candidate e.identity e.sequence (fallback t) body)

  unfoldable pub on_parse :
      (RunEventEmitter Event → Host → Emission Host Event)
      → RunEventEmitter Event
      → Host
      → Parsed Event
      → Emission Host Event
  on_parse again e h (issues why) = (e, (h, not_ok contract_invalid why))
  on_parse again e h (data_of v) = on_answer again v e (sink e.identity e.sequence v h)

  unfoldable pub on_clock :
      (RunEventEmitter Event → Host → Emission Host Event)
      → Map Value
      → RunEventEmitter Event
      → Host × ClockAnswer
      → Emission Host Event
  on_clock again body e (h, clock_threw why) = (e, (h, throws why))
  on_clock again body e (h, instant t) =
      on_parse again e h (safe_parse (candidate e.identity e.sequence t body))

  unfoldable pub emit : ℕ → Map Value → RunEventEmitter Event → Host → Emission Host Event
  emit zero body e h = (e, (h, goes_on))
  emit (suc fuel) body e h = on_clock (emit fuel body) body e (now e.identity.run_id h)

  -- One emission after another.
  unfoldable pub emit_all :
      ℕ → List (Map Value) → RunEventEmitter Event → Host → RunEventEmitter Event × Host
  emit_all fuel [] e h = (e, h)
  emit_all fuel (b ∷ bs) e h = let (e', (h', o)) = emit fuel b e h in emit_all fuel bs e' h'
