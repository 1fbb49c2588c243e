-- ===== src/Examples/Calls.antt =====
-- Concrete calls of an adapter, for the theorems about their recording.
use secure_home_agent_platfo.Prelude.{
  ◌≡◌, refl, none, ℕ, zero, suc, List, [], ◌∷◌, ◌++◌, Str, text, decimal,
}
use secure_home_agent_platfo.Prelude.Maps.{Map}
use secure_home_agent_platfo.Emitter
use secure_home_agent_platfo.Emitter.{
  Value, ClockAnswer, Parsed, SinkAnswer, EventIdentity, RunEventEmitter, instant, data_of, landed,
}
use secure_home_agent_platfo.Orchestration.Conclude.{Run}
use secure_home_agent_platfo.Orchestration.Records.{EarlyTermination}
use secure_home_agent_platfo.Orchestration.Emission.{emit}
use secure_home_agent_platfo.Orchestration.Calls
use secure_home_agent_platfo.Orchestration.Calls.{
  AdapterCall, permitted, denied, record_calls, Recorded, interrupted,
}
use secure_home_agent_platfo.Orchestration.Calls.Accounted.{
  logged, IsAccount, record_calls-IsAccount,
}
use secure_home_agent_platfo.Examples.Endings.{run_with, resolved}

abbrev identity : EventIdentity
identity = record { run_id = text "r"; adapter = text "a"; generation = 1 }

abbrev now : Str → ℕ → ℕ × ClockAnswer
now run_id w = (w, instant (text "t"))

-- The first event lands; the emission of the second is interrupted.
abbrev sink : EventIdentity → ℕ → ℕ → ℕ → ℕ × SinkAnswer
sink i zero v w = (suc w, landed)
sink i (suc n) v w = (suc w, Emitter.interrupted (text "stopped"))

abbrev parse : Map Value → Parsed ℕ
parse m = data_of 0

abbrev operation_text : Str → Str
operation_text name = text "{\"name\":" ++ (name ++ text "}")

abbrev emitting :
    Map Value
    → RunEventEmitter ℕ × Run ℕ EarlyTermination
    → (RunEventEmitter ℕ × Run ℕ EarlyTermination) × Emitter.EmitOutcome ℕ
emitting = emit (λ s. s) now parse sink 1

abbrev calls : List AdapterCall
calls =
    record { tool = text "read"; disposition = permitted }
    ∷ record { tool = text "write"; disposition = denied }
    ∷ []

abbrev first : RunEventEmitter ℕ × Run ℕ EarlyTermination
first = (Emitter.new identity, run_with none resolved)

record_calls-IsAccount_example :
    let r = record_calls operation_text (logged emitting) calls (first, []) in
    IsAccount operation_text calls r.0 r.1.0.1 r.1.1
record_calls-IsAccount_example = record_calls-IsAccount operation_text emitting calls first

-- The operation that was interrupted is in the account, its disposition too.
interrupted_here :
    let r = record_calls operation_text (logged emitting) calls (first, []) in
    (r.1.1 ≡ Recorded.interrupted (text "stopped"))
    × (r.0 ≡ record {
      attempted = record { call_id = text "call-0001"; name = text "read" } ∷ [];
      permitted = record { call_id = text "call-0001"; name = text "read" } ∷ [];
      denied = [];
    })
unfolding record_calls emit Emitter.emit Emitter.on_clock Emitter.on_parse Emitter.on_answer text
    Calls.call_id decimal
interrupted_here = (refl, refl)
