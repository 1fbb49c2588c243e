-- ===== src/Emitter/Identities.antt =====
-- events/emitter.ts: the identities that an emitter offers to the sink.
use secure_home_agent_platfo.Prelude.{
  ◌≡◌, refl, ap, ℕ, zero, suc, ◌≤◌, List, [], ◌∷◌, ◌++◌, Str, arith,
}
use secure_home_agent_platfo.Prelude.Maps.{Map}
use secure_home_agent_platfo.Emitter.{
  EventIdentity, Value, ClockAnswer, instant, clock_threw, Parsed, data_of, issues, SinkAnswer,
  landed, conflict, fenced, threw, interrupted, RunEventEmitter, Emission, on_answer, on_parse,
  on_clock, emit, emit_all, new,
}

-- One call of the sink.
pub record Offer (Event : Type 0) : Type 0 where
  pub sequence : ℕ
  pub event : Event
  pub answer : SinkAnswer

abbrev pub next : ℕ → SinkAnswer → ℕ
next n (fenced why) = n
next n landed = suc n
next n (conflict why) = suc n
next n (threw why) = suc n
next n (interrupted why) = suc n

-- Latest offer first: each was made after the numbers of the earlier ones were used up, all but those
-- that the sink refused for the fence; the number given comes after them all.
pub Rising : {Event : Type 0} → List (Offer Event) → ℕ → Type 0
Rising [] n = Unit
Rising (o ∷ os) n = (next o.sequence o.answer ≤ n) × Rising os o.sequence

abbrev pub with_landed : {Event : Type 0} → SinkAnswer → Event → List Event → List Event
with_landed landed v vs = vs ++ v ∷ []
with_landed (conflict why) v vs = vs
with_landed (fenced why) v vs = vs
with_landed (threw why) v vs = vs
with_landed (interrupted why) v vs = vs

-- The events that the sink took, oldest first.
abbrev pub landed_events : {Event : Type 0} → List (Offer Event) → List Event
landed_events [] = []
landed_events (o ∷ os) = with_landed o.answer o.event (landed_events os)

abbrev pub logging_clock :
    {Host Event : Type 0}
    → (Str → Host → Host × ClockAnswer)
    → Str
    → Host × List (Offer Event)
    → (Host × List (Offer Event)) × ClockAnswer
logging_clock now run_id (h, log) = let (h', t) = now run_id h in ((h', log), t)

abbrev pub logging :
    {Host Event : Type 0}
    → (EventIdentity → ℕ → Event → Host → Host × SinkAnswer)
    → EventIdentity
    → ℕ
    → Event
    → Host × List (Offer Event)
    → (Host × List (Offer Event)) × SinkAnswer
logging sink i n v (h, log) =
    let (h', a) = sink i n v h in ((h', (record { sequence = n; event = v; answer = a }) ∷ log), a)

-- The emitter agrees with what was offered.
abbrev pub Agrees :
    {Host Event : Type 0} → RunEventEmitter Event → Host × List (Offer Event) → Type 0
Agrees e h = Rising h.1 e.sequence × (e.emitted ≡ landed_events h.1)

module _ {Host Event : Type 0} (now : Str → Host → Host × ClockAnswer)
    (safe_parse : Map Value → Parsed Event)
    (sink : EventIdentity → ℕ → Event → Host → Host × SinkAnswer) where
  Agrees-on_answer :
      (again : RunEventEmitter Event
        → Host × List (Offer Event)
        → Emission (Host × List (Offer Event)) Event)
      (v : Event) (e : RunEventEmitter Event) (h : Host) (log : List (Offer Event)) (a : SinkAnswer)
      → ((e' : RunEventEmitter Event) (h' : Host × List (Offer Event))
          → Agrees e' h'
          → Agrees (again e' h').0 (again e' h').1.0)
      → Agrees e (h, log)
      → let log' = (record { sequence = e.sequence; event = v; answer = a }) ∷ log in
        let r = on_answer again v e ((h, log'), a) in Agrees r.0 r.1.0
  unfolding on_answer Rising
  Agrees-on_answer again v e h log landed k (up, same) =
      ((omega arith, up), ap (λ l. l ++ v ∷ []) same)
  Agrees-on_answer again v e h log (conflict why) k (up, same) = k _ _ ((omega arith, up), same)
  Agrees-on_answer again v e h log (fenced why) k (up, same) = ((omega arith, up), same)
  Agrees-on_answer again v e h log (threw why) k (up, same) = ((omega arith, up), same)
  Agrees-on_answer again v e h log (interrupted why) k (up, same) = ((omega arith, up), same)

  Agrees-on_parse :
      (again : RunEventEmitter Event
        → Host × List (Offer Event)
        → Emission (Host × List (Offer Event)) Event)
      (e : RunEventEmitter Event) (h : Host × List (Offer Event)) (x : Parsed Event)
      → ((e' : RunEventEmitter Event) (h' : Host × List (Offer Event))
          → Agrees e' h'
          → Agrees (again e' h').0 (again e' h').1.0)
      → Agrees e h
      → let r = on_parse (logging_clock now) safe_parse (logging sink) again e h x in
        Agrees r.0 r.1.0
  unfolding on_parse
  Agrees-on_parse again e h (issues why) k a = a
  Agrees-on_parse again e (h, log) (data_of v) k a =
      let (h', answer) = sink e.identity e.sequence v h in
      Agrees-on_answer again v e h' log answer k a

  Agrees-on_clock :
      (again : RunEventEmitter Event
        → Host × List (Offer Event)
        → Emission (Host × List (Offer Event)) Event)
      (body : Map Value) (e : RunEventEmitter Event) (h : Host × List (Offer Event))
      (t : ClockAnswer)
      → ((e' : RunEventEmitter Event) (h' : Host × List (Offer Event))
          → Agrees e' h'
          → Agrees (again e' h').0 (again e' h').1.0)
      → Agrees e h
      → let r = on_clock (logging_clock now) safe_parse (logging sink) again body e (h, t) in
        Agrees r.0 r.1.0
  unfolding on_clock
  Agrees-on_clock again body e h (clock_threw why) k a = a
  Agrees-on_clock again body e h (instant t) k a = Agrees-on_parse again e h _ k a

  Agrees-emit :
      (fuel : ℕ) (body : Map Value) (e : RunEventEmitter Event) (h : Host × List (Offer Event))
      → Agrees e h
      → let r = emit (logging_clock now) safe_parse (logging sink) fuel body e h in Agrees r.0 r.1.0
  unfolding emit
  Agrees-emit zero body e h a = a
  Agrees-emit (suc fuel) body e (h, log) a =
      let (h', t) = now e.identity.run_id h in
      Agrees-on_clock (emit (logging_clock now) safe_parse (logging sink) fuel body) body e
        (h', log) t (Agrees-emit fuel body) a

  Agrees-emit_all :
      (fuel : ℕ) (bs : List (Map Value)) (e : RunEventEmitter Event) (h : Host × List (Offer Event))
      → Agrees e h
      → let r = emit_all (logging_clock now) safe_parse (logging sink) fuel bs e h in Agrees r.0 r.1
  unfolding emit_all
  Agrees-emit_all fuel [] e h a = a
  Agrees-emit_all fuel (b ∷ bs) e h a =
      let r = emit (logging_clock now) safe_parse (logging sink) fuel b e h in
      Agrees-emit_all fuel bs r.0 r.1.0 (Agrees-emit fuel b e h a)

  -- Whatever events a new emitter is asked to emit, and whatever the clock, the schema and the sink
  -- answer, the numbers that it offers to the sink rise, so that none is offered again unless the
  -- sink had refused it for the fence; its counter is above them; and its list of emitted events is
  -- the list of events that the sink took.
  pub emit_all-new-Agrees :
      (fuel : ℕ) (bs : List (Map Value)) (i : EventIdentity) (host : Host)
      → let r = emit_all (logging_clock now) safe_parse (logging sink) fuel bs (new i) (host, []) in
        Rising r.1.1 r.0.sequence × (r.0.emitted ≡ landed_events r.1.1)
  unfolding Rising
  emit_all-new-Agrees fuel bs i host = Agrees-emit_all fuel bs (new i) (host, []) (tt, refl)
