-- ===== src/Examples/Emission.antt =====
-- services/runner-control/src: the theorems on the event emitter, the release of a scope and the
-- epochs of acquisition at concrete inputs.
use secure_home_agent_platfo.Prelude.{
  ◌≡◌, ◌≢◌, ℕ, zero, suc, ◌≤◌, true, Option, none, some, List, [], ◌∷◌, text, Str, arith,
}
use secure_home_agent_platfo.Prelude.Maps.{Map}
use secure_home_agent_platfo.Emitter.{
  EventIdentity, Value, string, ClockAnswer, instant, Parsed, data_of, SinkAnswer, landed, conflict,
  new, emit, emit_all, goes_on,
}
use secure_home_agent_platfo.Emitter.Walk.{emit_ends}
use secure_home_agent_platfo.Emitter.Identities.{
  Rising, landed_events, logging, logging_clock, emit_all-new-Agrees,
}
use secure_home_agent_platfo.Scope.Release.{RunScope}
use secure_home_agent_platfo.RunState.Journal.{AcquisitionEpoch, production, JournaledAcquisition}
use secure_home_agent_platfo.Core.Capture.{CapturedAuthority, captured}
use secure_home_agent_platfo.Acquisition
use secure_home_agent_platfo.Acquisition.{
  AuthorityBytes, acquired_bytes, acquisition_failure, Reading, answered,
}
use secure_home_agent_platfo.Acquisition.Epochs.{run_epoch}
use secure_home_agent_platfo.Acquisition.Epochs.Noting.{noting, aside, Reads}
use secure_home_agent_platfo.Acquisition.Epochs.Reads.{run_epoch-Reads}

abbrev identity : EventIdentity
identity = record { run_id = text "r"; adapter = text "a"; generation = 1 }

abbrev clock : Str → ℕ → ℕ × ClockAnswer
clock run_id h = (h, instant (text "t"))

abbrev schema : Map Value → Parsed (Map Value)
schema body = data_of body

-- The first two numbers are occupied.
abbrev answer : ℕ → SinkAnswer
answer zero = conflict (text "0")
answer (suc zero) = conflict (text "1")
answer (suc (suc n)) = landed

abbrev sink : EventIdentity → ℕ → Map Value → ℕ → ℕ × SinkAnswer
sink i n v h = (h, answer n)

vacant :
    (i : EventIdentity) (n : ℕ) (v : Map Value) (h : ℕ) (why : Str)
    → 2 ≤ n
    → (sink i n v h).1 ≢ conflict why
vacant i zero v h why far = absurd (omega arith)
vacant i (suc zero) v h why far = absurd (omega arith)
vacant i (suc (suc n)) v h why far = λ e. cc

abbrev body : Map Value
body = (text "k", string (text "v")) ∷ []

emit_ends_example : (emit clock schema sink 3 body (new identity) 0).1.1 ≢ goes_on
emit_ends_example = emit_ends clock schema sink 2 vacant 2 body (new identity) 0 (omega arith)

emit_all-new-Agrees_example :
    let r =
      emit_all
        (logging_clock clock)
        schema
        (logging sink)
        3
        (body ∷ body ∷ [])
        (new identity)
        (0, []) in
    Rising r.1.1 r.0.sequence × (r.0.emitted ≡ landed_events r.1.1)
emit_all-new-Agrees_example = emit_all-new-Agrees clock schema sink 3 (body ∷ body ∷ []) identity 0

abbrev forged : Map Value
forged = (text "run_id", string (text "x")) ∷ []

abbrev scope : RunScope
scope = record {
  workspace = some (text "w");
  session = none;
  workspace_attempt = none;
  session_attempt = some (text "s");
  fence_lost = none;
  armed = true;
}

abbrev reader : Str → AcquisitionEpoch → Str → ℕ → ℕ × Reading
reader run_id epoch source h = (h, answered (acquired_bytes source (text "b")))

abbrev journal : JournaledAcquisition → ℕ → ℕ × Option Str
journal e h = (h, none)

abbrev stop : ℕ → Option Str
stop h = none

abbrev capture : Str → AuthorityBytes → CapturedAuthority Str
capture name bytes =
    captured name (text "d")
      (record { contract_id = name; contract_version = text "1"; digest = text "d" }) (text "doc")

abbrev required : List Str
required = text "p" ∷ text "g" ∷ []

run_epoch-Reads_example : Reads required (
    run_epoch
      (noting reader)
      (aside journal)
      (λ x. stop x.0)
      capture
      required
      (Acquisition.new (text "r") production required)
      (0, []))
run_epoch-Reads_example =
    run_epoch-Reads reader journal stop capture required
      (Acquisition.new (text "r") production required) 0
