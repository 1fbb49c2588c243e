-- ===== src/Orchestration/Emission.antt =====
-- orchestration/terminate.ts, `emit`: one event of a run, declared to its ledger while it is under way.
-- The emitter is the one of the run's authority, and its sink acts on the world of the run. How the
-- program prints a document where it asks for a text is a parameter.
use secure_home_agent_platfo.Prelude.{
  ◌≡◌, refl, ◌∙◌, sym, ap, ℕ, Option, none, some, [], ◌∷◌, ◌++◌, Str, text, decimal, arith,
}
use secure_home_agent_platfo.Prelude.Maps
use secure_home_agent_platfo.Prelude.Maps.{Map}
use secure_home_agent_platfo.Scope.Release.{or_else, lose_fence}
use secure_home_agent_platfo.Emitter
use secure_home_agent_platfo.Emitter.{
  Value, string, number, document, ClockAnswer, Parsed, SinkAnswer, EventIdentity, EmitReason,
  contract_invalid, sink_failed, stale_fence, conflicting_replay, EmitOutcome, ok, not_ok, throws,
  goes_on, RunEventEmitter,
}
use secure_home_agent_platfo.Orchestration.Ledger.{event, pending, open_write, close_write}
use secure_home_agent_platfo.Orchestration.Conclude.{Run, lose}

-- `String(body['event_type'])`
abbrev pub printed : (Str → Str) → Option Value → Str
printed shown none = text "undefined"
printed shown (some (string s)) = s
printed shown (some (number n)) = decimal n
printed shown (some (document t)) = shown t

abbrev pub stale : {E : Type 0} → EmitOutcome E → Option Str
stale (not_ok stale_fence detail) = some detail
stale (not_ok contract_invalid detail) = none
stale (not_ok sink_failed detail) = none
stale (not_ok conflicting_replay detail) = none
stale (ok v) = none
stale (throws why) = none
stale goes_on = none

-- An emission that the fence refused is the run ceasing to be ours; and the write is closed.
unfoldable closed : {W Early : Type 0} → Option Str → Run W Early → Run W Early
closed (some detail) r = record (lose detail r) { ledger = close_write r.ledger }
closed none r = record r { ledger = close_write r.ledger }

or_else-none : (o : Option Str) → or_else o none ≡ o
unfolding or_else
or_else-none none = refl
or_else-none (some s) = refl

abbrev pub label_of : (Str → Str) → Map Value → Str
label_of shown body = printed shown (Maps.get (text "event_type") body)

-- What an emission leaves of a run.
pub record IsSettled {W Early E : Type 0} (shown : Str → Str) (body : Map Value) (r : Run W Early)
    (o : EmitOutcome E) (r' : Run W Early) : Type 0 where
  pub outstanding : r'.ledger.outstanding ≡ r.ledger.outstanding
  pub unsealed : r'.ledger.sealed ≡ r.ledger.sealed
  pub declared :
      r'.ledger.sequence
      ≡ r.ledger.sequence
        ++ record { run_id = r.ledger.run_id; kind = pending event; label = label_of shown body }
          ∷ []
  pub owned : r'.scope.fence_lost ≡ or_else r.scope.fence_lost (stale o)
  pub machine : r'.machine ≡ r.machine
  pub outbox : r'.outbox ≡ r.outbox

closed-IsSettled :
    {W Early E : Type 0} (shown : Str → Str) (body : Map Value) (r : Run W Early) (w : W)
    (o : EmitOutcome E) (loss : Option Str)
    → stale o ≡ loss
    → IsSettled shown body r o (
        closed loss
          (record r { ledger = open_write event (label_of shown body) r.ledger; world = w }))
unfolding closed open_write close_write lose_fence or_else
closed-IsSettled shown body r w o none h = record {
  outstanding = omega arith;
  unsealed = refl;
  declared = refl;
  owned = sym (or_else-none r.scope.fence_lost) ∙ ap (or_else r.scope.fence_lost) (sym h);
  machine = refl;
  outbox = refl;
}
closed-IsSettled shown body r w o (some detail) h = record {
  outstanding = omega arith;
  unsealed = refl;
  declared = refl;
  owned = ap (or_else r.scope.fence_lost) (sym h);
  machine = refl;
  outbox = refl;
}

module _ {W Early E : Type 0} (shown : Str → Str) (now : Str → W → W × ClockAnswer)
    (safe_parse : Map Value → Parsed E) (sink : EventIdentity → ℕ → E → W → W × SinkAnswer)
    (fuel : ℕ) where
  -- The write is closed whatever the emission does.
  unfoldable pub emit :
      Map Value
      → RunEventEmitter E × Run W Early
      → (RunEventEmitter E × Run W Early) × EmitOutcome E
  unfolding closed
  emit body (e, r) =
      let r' = record r { ledger = open_write event (label_of shown body) r.ledger } in
      let (e', (w, o)) = Emitter.emit now safe_parse sink fuel body e r'.world in
      ((e', closed (stale o) (record r' { world = w })), o)

  -- Whatever an emission does, and if it throws too, it leaves no write of the ledger outstanding that
  -- was not before, so that it does not stand in the way of the seal; it is one entry of the ledger,
  -- and the run has lost its fence afterwards exactly if it had before or the sink refused the fence,
  -- the first loss on record.
  pub emit-IsSettled :
      (body : Map Value) (e : RunEventEmitter E) (r : Run W Early)
      → let ((e', r'), o) = emit body (e, r) in IsSettled shown body r o r'
  unfolding emit
  emit-IsSettled body e r =
      let p = Emitter.emit now safe_parse sink fuel body e r.world in
      closed-IsSettled shown body r p.1.0 p.1.1 (stale p.1.1) refl
