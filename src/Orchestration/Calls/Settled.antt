-- ===== src/Orchestration/Calls/Settled.antt =====
-- orchestration/calls.ts, `recordCalls`, over `emit` of terminate.ts: what recording leaves of a run.
use secure_home_agent_platfo.Prelude.{◌≡◌, refl, ◌∙◌, ℕ, suc, List, [], ◌∷◌, Str}
use secure_home_agent_platfo.Prelude.Maps.{Map}
use secure_home_agent_platfo.Emitter.{
  Value, ClockAnswer, Parsed, SinkAnswer, EventIdentity, EmitOutcome, ok, not_ok, throws, goes_on,
  RunEventEmitter,
}
use secure_home_agent_platfo.Orchestration.Conclude.{Run}
use secure_home_agent_platfo.Orchestration.Emission.{emit, emit-IsSettled}
use secure_home_agent_platfo.Orchestration.Calls.{
  AdapterCall, EvidenceOperations, empty_operations, operation_at, attempt, dispose,
  attempted_event, disposition_event, Recording, unless_failed, record_from, record_calls,
}

module _ {S E X : Type 0} (operation_text : Str → Str) (emit : Map Value → S → S × EmitOutcome E)
    (f : S → X) (keeps : (body : Map Value) (s : S) → f (emit body s).0 ≡ f s) where
  kept_by :
      (ops : EvidenceOperations) (p : S × EmitOutcome E) (next : S → Recording S)
      → f (next p.0).1.0 ≡ f p.0
      → f (unless_failed ops p next).1.0 ≡ f p.0
  kept_by ops (s, ok v) next h = h
  kept_by ops (s, not_ok reason detail) next h = refl
  kept_by ops (s, throws why) next h = refl
  kept_by ops (s, goes_on) next h = refl

  -- What every emission keeps, a recording keeps.
  record_from-keeps :
      (index : ℕ) (calls : List AdapterCall) (ops : EvidenceOperations) (s : S)
      → f (record_from operation_text emit index calls ops s).1.0 ≡ f s
  unfolding record_from
  record_from-keeps index [] ops s = refl
  record_from-keeps index (call ∷ calls) ops s =
      let op = operation_at index call in
      let attempted = attempt op ops in
      let disposed = dispose call.disposition op attempted in
      let p = emit (attempted_event operation_text op) s in
      let q = emit (disposition_event op call.disposition) p.0 in
      kept_by attempted p _ (
        kept_by disposed q (record_from operation_text emit (suc index) calls disposed)
          (record_from-keeps (suc index) calls disposed q.0)
        ∙ keeps (disposition_event op call.disposition) p.0)
      ∙ keeps (attempted_event operation_text op) s

module _ {W Early E : Type 0} (shown operation_text : Str → Str) (now : Str → W → W × ClockAnswer)
    (safe_parse : Map Value → Parsed E) (sink : EventIdentity → ℕ → E → W → W × SinkAnswer)
    (fuel : ℕ) where
  -- Recording the calls of an adapter leaves no write of the run outstanding that was not before,
  -- however it ends: an emission that fails or throws half way does not stand in the way of the seal.
  pub outstanding_of_record_calls :
      (calls : List AdapterCall) (e : RunEventEmitter E) (r : Run W Early)
      → (record_calls operation_text
          (emit shown now safe_parse sink fuel)
          calls
          (e, r)).1.0.1.ledger.outstanding
        ≡ r.ledger.outstanding
  unfolding record_calls
  outstanding_of_record_calls calls e r =
      record_from-keeps operation_text (emit shown now safe_parse sink fuel)
        (λ s. s.1.ledger.outstanding)
        (λ body s. (emit-IsSettled shown now safe_parse sink fuel body s.0 s.1).outstanding) 0 calls
        empty_operations (e, r)
