-- ===== src/Emitter/Walk.antt =====
-- events/emitter.ts, `emit`: the walk past identities that are occupied.
use secure_home_agent_platfo.Prelude.{◌≡◌, refl, ◌≢◌, ℕ, zero, suc, ◌+◌, ◌≤◌, Str, arith}
use secure_home_agent_platfo.Prelude.Maps.{Map}
use secure_home_agent_platfo.Emitter.{
  EventIdentity, Value, ClockAnswer, instant, clock_threw, Parsed, data_of, issues, SinkAnswer,
  landed, conflict, fenced, threw, interrupted, goes_on, RunEventEmitter, Emission, on_answer,
  on_parse, on_clock, emit, advanced,
}

module _ {Host Event : Type 0} (now : Str → Host → Host × ClockAnswer)
    (safe_parse : Map Value → Parsed Event)
    (sink : EventIdentity → ℕ → Event → Host → Host × SinkAnswer) where
  ends-on_answer :
      (again : RunEventEmitter Event → Host → Emission Host Event) (v : Event)
      (e : RunEventEmitter Event) (h : Host) (a : SinkAnswer)
      → ((why : Str) → a ≡ conflict why → (again (advanced e) h).1.1 ≢ goes_on)
      → (on_answer again v e (h, a)).1.1 ≢ goes_on
  unfolding on_answer
  ends-on_answer again v e h landed k = λ x. cc
  ends-on_answer again v e h (conflict why) k = k why refl
  ends-on_answer again v e h (fenced why) k = λ x. cc
  ends-on_answer again v e h (threw why) k = λ x. cc
  ends-on_answer again v e h (interrupted why) k = λ x. cc

  ends-on_parse :
      (again : RunEventEmitter Event → Host → Emission Host Event) (e : RunEventEmitter Event)
      (h : Host) (x : Parsed Event)
      → ((h h' : Host) (v : Event) (why : Str)
          → (sink e.identity e.sequence v h).1 ≡ conflict why
          → (again (advanced e) h').1.1 ≢ goes_on)
      → (on_parse now safe_parse sink again e h x).1.1 ≢ goes_on
  unfolding on_parse
  ends-on_parse again e h (issues why) k = λ x. cc
  ends-on_parse again e h (data_of v) k =
      let p = sink e.identity e.sequence v h in
      ends-on_answer again v e p.0 p.1 (λ why c. k h p.0 v why c)

  ends-on_clock :
      (again : RunEventEmitter Event → Host → Emission Host Event) (body : Map Value)
      (e : RunEventEmitter Event) (t : Host × ClockAnswer)
      → ((h h' : Host) (v : Event) (why : Str)
          → (sink e.identity e.sequence v h).1 ≡ conflict why
          → (again (advanced e) h').1.1 ≢ goes_on)
      → (on_clock now safe_parse sink again body e t).1.1 ≢ goes_on
  unfolding on_clock
  ends-on_clock again body e (h, clock_threw why) k = λ x. cc
  ends-on_clock again body e (h, instant t) k = ends-on_parse again e h _ k

  -- Where the sink reports no conflict from some number on, an emission comes to an end on fuel that
  -- exceeds the count of the numbers from its own up to that one, whatever the clock, the schema and the
  -- sink answer.
  pub emit_ends :
      (bound : ℕ)
      → ((i : EventIdentity) (n : ℕ) (v : Event) (h : Host) (why : Str)
          → bound ≤ n
          → (sink i n v h).1 ≢ conflict why)
      → (n : ℕ) (body : Map Value) (e : RunEventEmitter Event) (h : Host) → bound ≤ e.sequence + n
      → (emit now safe_parse sink (suc n) body e h).1.1 ≢ goes_on
  unfolding emit
  emit_ends bound vacant zero body e h far =
      ends-on_clock _ body e (now e.identity.run_id h)
        (λ g h' v why c. absurd (vacant e.identity e.sequence v g why (omega arith) c))
  emit_ends bound vacant (suc n) body e h far =
      ends-on_clock _ body e (now e.identity.run_id h)
        (λ g h' v why c. emit_ends bound vacant n body (advanced e) h' (omega arith))
