-- ===== src/Emitter/Envelope.antt =====
-- events/emitter.ts: the envelope that the emitter states of an event.
use secure_home_agent_platfo.Prelude.{◌≡◌, refl, ℕ, Option, none, some, [], ◌∷◌, Str, text, arith}
use secure_home_agent_platfo.Prelude.Maps
use secure_home_agent_platfo.Prelude.Maps.{Map, get-set}
use secure_home_agent_platfo.Emitter.{EventIdentity, Value, string, number, candidate}

-- What the emitter states of an event.
abbrev pub stated : EventIdentity → ℕ → Str → Map Value
stated i sequence timestamp =
    (text "adapter", string i.adapter)
    ∷ (text "timestamp", string timestamp)
    ∷ (text "sequence", number sequence)
    ∷ (text "run_id", string i.run_id)
    ∷ (text "contract_version", string (text "1.0.0"))
    ∷ (text "contract_id", string (text "run-event"))
    ∷ []

unfoldable pub or_else {ℓ} : {A : Type ℓ} → Option A → Option A → Option A
or_else (some a) o = some a
or_else none o = o

-- Members set one after another, the last of the list first.
spread : Map Value → Map Value → Map Value
spread [] body = body
spread ((j, v) ∷ m) body = Maps.set j v (spread m body)

get-spread :
    (k : Str) (m body : Map Value)
    → Maps.get k (spread m body) ≡ or_else (Maps.get k m) (Maps.get k body)
unfolding spread or_else Maps.get
get-spread k [] body = refl
get-spread k ((j, v) ∷ m) body = ground (arith, get-set j k v (spread m body), get-spread k m body)

-- A member of the event that is offered is the emitter's if the emitter states one of that name, and
-- otherwise the body's: no member of the body replaces the run, the number, the time, the adapter or
-- the contract.
pub candidate-stated :
    (k : Str) (i : EventIdentity) (sequence : ℕ) (timestamp : Str) (body : Map Value)
    → Maps.get k (candidate i sequence timestamp body)
      ≡ or_else (Maps.get k (stated i sequence timestamp)) (Maps.get k body)
unfolding candidate spread
candidate-stated k i sequence timestamp body = get-spread k (stated i sequence timestamp) body
