-- ===== src/Orchestration/Conclude/Durable.antt =====
-- orchestration/terminate.ts, `conclude`: what stands behind a reported terminal.
use secure_home_agent_platfo.Prelude.{
  ◌≡◌, ◌≢◌, ap, subst, ◌∙◌, sym, true, none, List, [], ◌++◌, map, Str,
}
use secure_home_agent_platfo.Scope.Release.{disarm, release}
use secure_home_agent_platfo.Lifecycle.States.{is_terminal}
use secure_home_agent_platfo.RunState.Outbox.{OutboxEntry, facts, drain_machine-facts}
use secure_home_agent_platfo.RunState.Journal.{transition, rejection}
use secure_home_agent_platfo.Lifecycle.Machine.{pending_journal}
use secure_home_agent_platfo.Orchestration.Conclude.Landed.{
  Acknowledges, done, is_empty-pending, unsent, tick-owned, tick-state, tick-Acknowledges,
  unsent-tick,
}
use secure_home_agent_platfo.Orchestration.Conclude.{
  Produced, no_record, RunConclusion, terminal, answers, Ports, Run, tick, releasing,
  unless_rethrown, conclude,
}
use secure_home_agent_platfo.Orchestration.Conclude.Stated.{
  conclude-IsStated, unless_rethrown-answers,
}

module _ {W Early Bundle : Type 0} (ports : Ports W Early Bundle) where
  releasing-parts :
      (produced : Produced) (detail : Str) (s r' : Run W Early) (c : RunConclusion)
      → releasing ports produced detail s ≡ (r', answers c)
      → (r'.scope.fence_lost ≡ s.scope.fence_lost)
        × (r'.outbox ≡ s.outbox)
        × (r'.machine ≡ s.machine)
  unfolding release
  releasing-parts produced detail s r' c h =
      let e = sym (ap (λ p. p.0) h) in
      (ap (λ x. x.scope.fence_lost) e, ap (λ x. x.outbox) e, ap (λ x. x.machine) e)

  -- The conclusion of a terminal: before it, the run held its fence and its machine had reached the state
  -- that is reported, which is terminal; what waited in the outbox, and then what the machine had not
  -- handed over, was sent in order, each fact until the journal acknowledged it; and what is named is the
  -- record that the caller produced.
  pub record IsRecorded (produced : Produced) (r : Run W Early) (c : RunConclusion) : Type 0 where
    pub owned : r.scope.fence_lost ≡ none
    pub ended : is_terminal r.machine.state ≡ true
    pub state : c.state ≡ r.machine.state
    pub named : c.produced ≡ produced
    pub there : produced ≢ no_record
    pub entries : List OutboxEntry
    pub whole :
        map (λ e. e.fact) entries
        ≡ facts r.outbox
          ++ (map transition (pending_journal r.machine).0
              ++ map rejection (pending_journal r.machine).1)
    pub world : W
    pub acknowledged : Acknowledges ports.settled_journal r.fence entries r.world world

  ticked-IsRecorded :
      (produced : Produced) (r : Run W Early) (c : RunConclusion)
      → let journal = ports.settled_journal in
        let s = (tick journal (tick journal r).0).0 in
        s.scope.fence_lost ≡ none
        → s.outbox.pending ≡ []
        → is_terminal s.machine.state ≡ true
        → c.state ≡ s.machine.state
        → c.produced ≡ produced
        → produced ≢ no_record
        → IsRecorded produced r c
  unfolding tick
  ticked-IsRecorded produced r c owned empty ended state named there =
      let journal = ports.settled_journal in
      let first = (tick journal r).0 in
      let second = (tick journal first).0 in
      let owned' = tick-owned journal first owned in
      let owned'' = tick-owned journal r owned' in
      let same = tick-state journal first ∙ tick-state journal r in
      let nothing : Acknowledges journal r.fence second.outbox.pending second.world second.world =
        subst (λ es. Acknowledges journal r.fence es second.world second.world) (sym empty) done in
      let later = tick-Acknowledges journal first second.world owned' nothing in
      let rest =
        subst (λ es. Acknowledges journal r.fence es first.world second.world)
          (unsent-tick journal r owned'') later in
      record {
        owned = owned'';
        ended = ap is_terminal (sym same) ∙ ended;
        state = state ∙ same;
        named = named;
        there = there;
        entries = unsent r;
        whole = (drain_machine-facts r.machine r.outbox).1;
        world = second.world;
        acknowledged = tick-Acknowledges journal r second.world owned'' rest;
      }

  -- A run is reported as terminal only on durable facts: it held its fence, its machine had reached the
  -- terminal state that is reported, and every fact that waited in its outbox or that its machine had not
  -- handed over was sent to the journal in order, each until the journal acknowledged it. The
  -- conclusion names the record that its caller produced, and there is one.
  pub conclude-IsRecorded :
      (produced : Produced) (detail : Str) (r r' : Run W Early) (c : RunConclusion)
      → conclude ports produced detail r ≡ (r', answers c)
      → c.kind ≡ terminal
      → IsRecorded produced r c
  unfolding conclude disarm
  conclude-IsRecorded produced detail r r' c h t =
      let journal = ports.settled_journal in
      let start = record r { scope = disarm r.scope } in
      let next = λ (s : Run W Early).
        unless_rethrown ports (tick journal s) (releasing ports produced detail) in
      let first = tick journal start in
      let second = tick journal first.0 in
      let end =
        unless_rethrown-answers ports second (releasing ports produced detail) r' c
          (unless_rethrown-answers ports first next r' c h) in
      let (fence, outbox, machine) = releasing-parts produced detail second.0 r' c end in
      let x = conclude-IsStated ports produced detail r r' c h t in
      let i =
        ticked-IsRecorded produced start c (sym fence ∙ x.owned)
          (ap (λ o. o.pending) (sym outbox) ∙ is_empty-pending r'.outbox x.durable)
          (ap (λ m. is_terminal m.state) (sym machine) ∙ x.ended)
          (x.state ∙ ap (λ m. m.state) machine) x.named x.there in
      record {
        owned = i.owned;
        ended = i.ended;
        state = i.state;
        named = i.named;
        there = i.there;
        entries = i.entries;
        whole = i.whole;
        world = i.world;
        acknowledged = i.acknowledged;
      }
