-- ===== src/Orchestration/Conclude/Stated.antt =====
-- orchestration/terminate.ts, `conclude`: what a conclusion says of the run as it is left.
use secure_home_agent_platfo.Prelude.{
  ◌≡◌, ◌≢◌, refl, ap, subst, ◌∙◌, sym, Bool, true, false, Option, none, some, Str, arith,
}
use secure_home_agent_platfo.Scope.Release.{disarm}
use secure_home_agent_platfo.Lifecycle.States.{is_terminal}
use secure_home_agent_platfo.RunState.Outbox.{is_empty}
use secure_home_agent_platfo.Orchestration.Flush.{
  Flushed, emptied, conflicting, failed, rethrown, lost,
}
use secure_home_agent_platfo.Orchestration.Conclude.{
  Produced, no_record, early_termination_record, evidence_bundle, RunConclusion, terminal, Ended,
  answers, Ports, Run, tick, concluded, on_fence, conclusion_of, releasing, unless_rethrown,
  conclude,
}

-- What a conclusion of a terminal says of the run as it is left.
pub record IsStated {W Early : Type 0} (produced : Produced) (r : Run W Early) (c : RunConclusion)
    : Type 0 where
  pub owned : r.scope.fence_lost ≡ none
  pub durable : is_empty r.outbox ≡ true
  pub ended : is_terminal r.machine.state ≡ true
  pub state : c.state ≡ r.machine.state
  pub named : c.produced ≡ produced
  pub there : produced ≢ no_record

module _ {W Early : Type 0} where
  fence-IsStated :
      (o : Option Str) (empty ended : Bool) (produced : Produced) (detail : Str) (r : Run W Early)
      → r.scope.fence_lost ≡ o
      → is_empty r.outbox ≡ empty
      → is_terminal r.machine.state ≡ ended
      → (on_fence o produced detail r).kind ≡ terminal
      → IsStated produced r (on_fence o produced detail r)
  unfolding concluded
  fence-IsStated (some why) empty ended produced detail r f e t h = absurd (ground arith)
  fence-IsStated none false true produced detail r f e t h = absurd (ground arith)
  fence-IsStated none false false produced detail r f e t h = absurd (ground arith)
  fence-IsStated none true false produced detail r f e t h = absurd (ground arith)
  fence-IsStated none true true no_record detail r f e t h = absurd (ground arith)
  fence-IsStated none true true early_termination_record detail r f e t h =
      rw (e, t)
        (record {
          owned = f;
          durable = e;
          ended = t;
          state = refl;
          named = refl;
          there = λ q. absurd (ground arith);
        })
  fence-IsStated none true true evidence_bundle detail r f e t h =
      rw (e, t)
        (record {
          owned = f;
          durable = e;
          ended = t;
          state = refl;
          named = refl;
          there = λ q. absurd (ground arith);
        })

  conclusion-IsStated :
      (produced : Produced) (detail : Str) (r : Run W Early)
      → (conclusion_of produced detail r).kind ≡ terminal
      → IsStated produced r (conclusion_of produced detail r)
  unfolding conclusion_of
  conclusion-IsStated produced detail r h =
      fence-IsStated r.scope.fence_lost (is_empty r.outbox) (is_terminal r.machine.state) produced
        detail r refl refl refl h

  fence-state :
      (o : Option Str) (empty ended : Bool) (produced : Produced) (detail : Str) (r : Run W Early)
      → is_empty r.outbox ≡ empty
      → is_terminal r.machine.state ≡ ended
      → (on_fence o produced detail r).state ≡ r.machine.state
  unfolding concluded
  fence-state (some why) empty ended produced detail r e t = refl
  fence-state none false true produced detail r e t = rw (e, t) refl
  fence-state none false false produced detail r e t = rw (e, t) refl
  fence-state none true false produced detail r e t = rw (e, t) refl
  fence-state none true true no_record detail r e t = rw (e, t) refl
  fence-state none true true early_termination_record detail r e t = rw (e, t) refl
  fence-state none true true evidence_bundle detail r e t = rw (e, t) refl

  -- A conclusion reports the state that the machine stands in.
  pub conclusion_of-state :
      (produced : Produced) (detail : Str) (r : Run W Early)
      → (conclusion_of produced detail r).state ≡ r.machine.state
  unfolding conclusion_of
  conclusion_of-state produced detail r =
      fence-state r.scope.fence_lost (is_empty r.outbox) (is_terminal r.machine.state) produced
        detail r refl refl

  fence-produced :
      (o : Option Str) (produced : Produced) (detail : Str) (r : Run W Early)
      → (on_fence o produced detail r).produced ≡ evidence_bundle
      → (produced ≡ evidence_bundle) × ((on_fence o produced detail r).kind ≡ terminal)
  unfolding concluded
  fence-produced (some why) produced detail r h = absurd (ground arith)
  fence-produced none no_record detail r h = absurd (ground arith)
  fence-produced none early_termination_record detail r h = absurd (ground arith)
  fence-produced none evidence_bundle detail r h = ground arith

  -- A conclusion names a bundle only where one was produced.
  conclusion-produced :
      (produced : Produced) (detail : Str) (r : Run W Early)
      → (conclusion_of produced detail r).produced ≡ evidence_bundle
      → (produced ≡ evidence_bundle) × ((conclusion_of produced detail r).kind ≡ terminal)
  unfolding conclusion_of
  conclusion-produced produced detail r h = fence-produced r.scope.fence_lost produced detail r h

module _ {W Early Bundle : Type 0} (ports : Ports W Early Bundle) where
  pub unless_rethrown-answers :
      (p : Run W Early × Flushed) (next : Run W Early → Run W Early × Ended RunConclusion)
      (r' : Run W Early) (c : RunConclusion)
      → unless_rethrown ports p next ≡ (r', answers c)
      → next p.0 ≡ (r', answers c)
  unless_rethrown-answers (r, emptied) next r' c h = h
  unless_rethrown-answers (r, conflicting) next r' c h = h
  unless_rethrown-answers (r, failed) next r' c h = h
  unless_rethrown-answers (r, lost detail) next r' c h = h
  unless_rethrown-answers (r, rethrown) next r' c h = absurd (ground arith)

  answers_inj : (c d : RunConclusion) → answers c ≡ answers d → c ≡ d
  answers_inj c d h = cc

  releasing-conclusion_of :
      (produced : Produced) (detail : Str) (r r' : Run W Early) (c : RunConclusion)
      → releasing ports produced detail r ≡ (r', answers c)
      → c ≡ conclusion_of produced detail r'
  releasing-conclusion_of produced detail r r' c h =
      let (s, d) = releasing ports produced detail r in
      sym (answers_inj (conclusion_of produced detail s) c (ap (λ p. p.1) h))
      ∙ ap (λ p. conclusion_of produced detail p.0) h

  -- What `conclude` answers is read off the run as it leaves it.
  pub conclude-conclusion_of :
      (produced : Produced) (detail : Str) (r r' : Run W Early) (c : RunConclusion)
      → conclude ports produced detail r ≡ (r', answers c)
      → c ≡ conclusion_of produced detail r'
  unfolding conclude
  conclude-conclusion_of produced detail r r' c h =
      let first = tick ports.settled_journal (record r { scope = disarm r.scope }) in
      let next = λ (s : Run W Early).
        unless_rethrown ports (tick ports.settled_journal s) (releasing ports produced detail) in
      let second = tick ports.settled_journal first.0 in
      releasing-conclusion_of produced detail second.0 r' c (
        unless_rethrown-answers second (releasing ports produced detail) r' c
          (unless_rethrown-answers first next r' c h))

  pub conclude-IsStated :
      (produced : Produced) (detail : Str) (r r' : Run W Early) (c : RunConclusion)
      → conclude ports produced detail r ≡ (r', answers c)
      → c.kind ≡ terminal
      → IsStated produced r' c
  conclude-IsStated produced detail r r' c h t =
      let e = conclude-conclusion_of produced detail r r' c h in
      subst (IsStated produced r') (sym e)
        (conclusion-IsStated produced detail r' (subst (λ d. d.kind ≡ terminal) e t))

  pub conclude-produced :
      (produced : Produced) (detail : Str) (r r' : Run W Early) (c : RunConclusion)
      → conclude ports produced detail r ≡ (r', answers c)
      → c.produced ≡ evidence_bundle
      → (produced ≡ evidence_bundle) × (c.kind ≡ terminal)
  conclude-produced produced detail r r' c h t =
      let e = conclude-conclusion_of produced detail r r' c h in
      let (p, k) =
        conclusion-produced produced detail r' (subst (λ d. d.produced ≡ evidence_bundle) e t) in
      (p, subst (λ d. d.kind ≡ terminal) (sym e) k)
