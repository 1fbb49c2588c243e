-- ===== src/Orchestration/Calls.antt =====
-- orchestration/calls.ts, `recordCalls`, with detail.ts, `emissionFailure`: the calls that an adapter
-- reports become facts of the terminal evidence, and events. The emission is a parameter, on a state
-- that it passes on; so is the JSON text of the operation that a call names. The account that survives
-- an error is the `operations` of the result.
pub mod Accounted
pub mod Settled
use secure_home_agent_platfo.Prelude.{
  ℕ, zero, suc, ◌+◌, ◌-◌, List, [], ◌∷◌, ◌++◌, length, Str, text, decimal,
}
use secure_home_agent_platfo.Prelude.Maps.{Map}
use secure_home_agent_platfo.Emitter.{
  Value, string, document, EmitReason, contract_invalid, sink_failed, stale_fence,
  conflicting_replay, EmitOutcome, ok, not_ok, throws, goes_on,
}

pub data Disposition : Type 0 where
  permitted denied : Disposition

pub record AdapterCall : Type 0 where
  pub tool : Str
  pub disposition : Disposition

pub record Operation : Type 0 where
  pub call_id : Str
  pub name : Str

pub record EvidenceOperations : Type 0 where
  pub attempted : List Operation
  pub permitted : List Operation
  pub denied : List Operation

abbrev pub empty_operations : EvidenceOperations
empty_operations = record { attempted = []; permitted = []; denied = [] }

abbrev pub disposition_name : Disposition → Str
disposition_name permitted = text "permitted"
disposition_name denied = text "denied"

-- `operations[disposition]`
abbrev pub under : Disposition → EvidenceOperations → List Operation
under permitted ops = ops.permitted
under denied ops = ops.denied

abbrev pub reason_name : EmitReason → Str
reason_name contract_invalid = text "contract_invalid"
reason_name sink_failed = text "sink_failed"
reason_name stale_fence = text "stale_fence"
reason_name conflicting_replay = text "conflicting_replay"

abbrev pub emission_failure : EmitReason → Str → Str
emission_failure reason detail =
    text "run event could not be emitted (" ++ (reason_name reason ++ (text "): " ++ detail))

abbrev pub zeros : ℕ → Str → Str
zeros zero s = s
zeros (suc n) s = 48 ∷ zeros n s

-- `padStart(4, '0')` of the number of the call, from 1
unfoldable pub call_id : ℕ → Str
call_id index = let digits = decimal (index + 1) in text "call-" ++ zeros (4 - length digits) digits

abbrev pub operation_at : ℕ → AdapterCall → Operation
operation_at index call = record { call_id = call_id index; name = call.tool }

unfoldable pub attempt : Operation → EvidenceOperations → EvidenceOperations
attempt op ops = record ops { attempted = ops.attempted ++ op ∷ [] }

unfoldable pub dispose : Disposition → Operation → EvidenceOperations → EvidenceOperations
dispose permitted op ops = record ops { permitted = ops.permitted ++ op ∷ [] }
dispose denied op ops = record ops { denied = ops.denied ++ op ∷ [] }

-- How a recording ends: every call is recorded, an emission failed, or an error goes on.
pub data Recorded : Type 0 where
  complete goes_on_emitting : Recorded
  not_recorded interrupted : Str → Recorded

module _ (operation_text : Str → Str) where
  unfoldable pub attempted_event : Operation → Map Value
  attempted_event op =
      (text "event_type", string (text "call.attempted"))
      ∷ (text "call_id", string op.call_id)
      ∷ (text "operation", document (operation_text op.name))
      ∷ []

abbrev pub disposition_event : Operation → Disposition → Map Value
disposition_event op d =
    (text "event_type", string (text "call.disposition"))
    ∷ (text "call_id", string op.call_id)
    ∷ (text "disposition", string (disposition_name d))
    ∷ []

-- The account so far, and the state of the emission.
abbrev pub Recording : Type 0 → Type 0
Recording S = EvidenceOperations × (S × Recorded)

abbrev pub unless_failed :
    {S E : Type 0} → EvidenceOperations → S × EmitOutcome E → (S → Recording S) → Recording S
unless_failed ops (s, ok v) next = next s
unless_failed ops (s, not_ok reason detail) next =
    (ops, (s, not_recorded (emission_failure reason detail)))
unless_failed ops (s, throws why) next = (ops, (s, interrupted why))
unless_failed ops (s, goes_on) next = (ops, (s, goes_on_emitting))

module _ {S E : Type 0} (operation_text : Str → Str)
    (emit : Map Value → S → S × EmitOutcome E) where
  -- The fact precedes its emission.
  unfoldable pub record_from : ℕ → List AdapterCall → EvidenceOperations → S → Recording S
  unfolding attempt dispose attempted_event
  record_from index [] ops s = (ops, (s, complete))
  record_from index (call ∷ calls) ops s =
      let op = operation_at index call in
      let attempted = attempt op ops in
      let disposed = dispose call.disposition op attempted in
      unless_failed attempted (emit (attempted_event operation_text op) s) (λ s'.
        unless_failed disposed (emit (disposition_event op call.disposition) s')
          (record_from (suc index) calls disposed))

  unfoldable pub record_calls : List AdapterCall → S → Recording S
  unfolding record_from
  record_calls calls s = record_from 0 calls empty_operations s
