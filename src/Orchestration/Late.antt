-- ===== src/Orchestration/Late.antt =====
-- orchestration/terminate.ts, `finish`: a run that learns in its last flush that its ownership moved.
use mathlib.Core.Bool.{false≢true}
use secure_home_agent_platfo.Prelude.{
  ◌≡◌, refl, ap, subst, sym, ◌∙◌, ℕ, true, false, none, some, List, Str, text, arith,
}
use secure_home_agent_platfo.Lifecycle.States.{LifecycleState, operational_failure, is_terminal}
use secure_home_agent_platfo.Lifecycle.Transitions.{operational_fault, transitions}
use secure_home_agent_platfo.Lifecycle.Machine.{
  RunMachine, TransitionEntry, Step, Projection, projected, unprojected, project, project_from,
  minted, permits,
}
use secure_home_agent_platfo.Scope.{as_asked, in_place, unreached, reach_terminal-Reached}
use secure_home_agent_platfo.RunState.Outbox.{is_empty}
use secure_home_agent_platfo.Orchestration.Flush.{lost}
use secure_home_agent_platfo.Orchestration.Records.{Outcome, assembled, assemble_evidence}
use secure_home_agent_platfo.Orchestration.Conclude.{
  Ports, Run, Ended, answers, RunConclusion, ownership_lost, tick, unless_rethrown, no_record,
  conclude,
}
use secure_home_agent_platfo.Orchestration.Conclude.Landed.{tick-table, tick-state, tick-lost}
use secure_home_agent_platfo.Orchestration.Conclude.Stated.{
  conclude-conclusion_of, conclusion_of-state,
}
use secure_home_agent_platfo.Orchestration.Terminate.{Contracts, reach, reached_detail}
use secure_home_agent_platfo.Orchestration.Finish.{
  Finishing, assembly_of, sequence, on_durable, on_projected, on_assembled, finish_as, finish,
}
use secure_home_agent_platfo.Orchestration.Dispossessed.{conclude-IsAbandoned}

project-Same :
    (i : ℕ) (steps : List Step) (m m' : RunMachine) (p : Projection)
    → project i steps m ≡ (m', p)
    → (m'.table ≡ m.table) × (m'.state ≡ m.state)
unfolding project
project-Same i steps m m' p h =
    let (t, s) = minted-Same (project_from m.table m.run_id m.state steps) in
    let e = sym (ap (λ x. x.0) h) in (ap (λ x. x.table) e ∙ t, ap (λ x. x.state) e ∙ s)
  where
    minted-Same :
        (q : Projection) → ((minted i q m).table ≡ m.table) × ((minted i q m).state ≡ m.state)
    minted-Same (projected es) = (refl, refl)
    minted-Same (unprojected k from) = (refl, refl)

some_inj : (s t : LifecycleState) → some s ≡ some t → s ≡ t
some_inj s t h = cc

-- The declared table lets every state that is not terminal end by an operational fault.
fault_declared :
    (s : LifecycleState)
    → is_terminal s ≡ false
    → transitions s operational_fault ≡ some operational_failure
unfolding is_terminal transitions
fault_declared s live = ground arith

-- A run that has lost its ownership stands in a terminal state that it declared by itself.
pub record DeclaresTerminal {W Early : Type 0} (p : Run W Early × Ended RunConclusion)
    : Type 0 where
  pub conclusion : RunConclusion
  pub answered : p.1 ≡ answers conclusion
  pub kind : conclusion.kind ≡ ownership_lost
  pub produced : conclusion.produced ≡ no_record
  pub state : p.0.machine.state ≡ operational_failure
  pub told : conclusion.state ≡ operational_failure

module _ {W Early Bundle Registry : Type 0} (contracts : Contracts Early Bundle)
    (ports : Ports W Early Bundle) (f : Finishing Registry) where
  abbrev pub undurable : Str
  undurable =
      text
        "the run walk could not be made durable; an entry is missing from the journal and the seal would describe an incomplete record"

  permitted :
      (m : RunMachine)
      → m.table ≡ transitions
      → is_terminal m.state ≡ false
      → permits operational_fault m ≡ true
  unfolding permits
  permitted m t live =
      let found : m.table m.state operational_fault ≡ some operational_failure =
        ap (λ table. table m.state operational_fault) t ∙ fault_declared m.state live in
      rw (live, found) refl

  faulted :
      (s : Run W Early)
      → s.machine.table ≡ transitions
      → is_terminal s.machine.state ≡ false
      → (reach contracts ports operational_fault undurable s).0.machine.state ≡ operational_failure
  faulted s t live =
      let at = ports.now s.world in
      let allowed = permitted s.machine t live in
      elim (reach_terminal-Reached operational_fault undurable at at s.machine) [
        | as_asked p o d ↦
            let found =
              ap (λ table. table s.machine.state operational_fault) t
              ∙ fault_declared s.machine.state live in
            some_inj _ _ (sym d ∙ found)
        | in_place p n q o d ↦ absurd (false≢true (sym p ∙ allowed))
        | unreached p q o st ts ↦ absurd (false≢true (sym p ∙ allowed))
      ]

  declared :
      (s : Run W Early) (detail why : Str)
      → s.scope.fence_lost ≡ some why
      → s.machine.state ≡ operational_failure
      → DeclaresTerminal (conclude ports no_record detail s)
  declared s detail why l e =
      let a = conclude-IsAbandoned ports no_record detail s why l in
      let c =
        conclude-conclusion_of ports no_record detail s (conclude ports no_record detail s).0
          a.conclusion (ap (λ x. ((conclude ports no_record detail s).0, x)) a.answered) in
      record {
        conclusion = a.conclusion;
        answered = a.answered;
        kind = a.kind;
        produced = a.produced;
        state = ap (λ m. m.state) a.machine ∙ e;
        told =
            ap (λ d. d.state) c
            ∙ (conclusion_of-state no_record detail (conclude ports no_record detail s).0
                ∙ (ap (λ m. m.state) a.machine ∙ e));
      }

  -- Where a run that held its fence when it began to finish, whose evidence was assembled and whose
  -- terminal sequence was projected, is told by the last flush before the seal that ownership moved, and
  -- its machine is under the declared table and not terminal yet, the machine takes the transition of an
  -- operational fault all the same: it ends in OPERATIONAL_FAILURE, and the conclusion reports that state
  -- while it says that ownership was lost and that nothing was produced.
  pub finish_of_moved :
      (r s : Run W Early) (bundle : Bundle) (outcome : Outcome) (m : RunMachine)
      (entries : List TransitionEntry) (why : Str)
      → r.machine.table ≡ transitions
      → is_terminal r.machine.state ≡ false
      → r.scope.fence_lost ≡ none
      → assemble_evidence contracts.form contracts.digest_of contracts.byte_length
          contracts.evidence
          (assembly_of contracts ports f r)
        ≡ assembled bundle outcome
      → project f.projection (sequence contracts ports f (ports.now r.world)) r.machine
        ≡ (m, projected entries)
      → tick ports.journal (record r { machine = m }) ≡ (s, lost why)
      → DeclaresTerminal (finish contracts ports f r)
  unfolding finish
  finish_of_moved r s bundle outcome m entries why table live o a p t =
      let next = λ (x : Run W Early).
        on_durable contracts ports f entries outcome bundle (is_empty x.outbox) x in
      let ticked = record r { machine = m } in
      let (lost_now, waits) = tick-lost ports.journal ticked why (ap (λ x. x.1) t) in
      let same : s ≡ (tick ports.journal ticked).0 = sym (ap (λ x. x.0) t) in
      let (m-table, m-state) = project-Same f.projection _ r.machine m (projected entries) p in
      let s-table =
        ap (λ x. x.machine.table) same ∙ (tick-table ports.journal ticked ∙ (m-table ∙ table)) in
      let s-state = ap (λ x. x.machine.state) same ∙ (tick-state ports.journal ticked ∙ m-state) in
      let s-live = ap is_terminal s-state ∙ live in
      let s-lost = ap (λ x. x.scope.fence_lost) same ∙ lost_now in
      let e = ap (λ x. is_empty x.outbox) same ∙ waits in
      let q = reach contracts ports operational_fault undurable s in
      subst (λ x. DeclaresTerminal (finish_as contracts ports f x r)) (sym o)
        (subst (λ x. DeclaresTerminal (on_assembled contracts ports f r x)) (sym a)
          (subst (λ x. DeclaresTerminal (on_projected contracts ports f outcome bundle r x)) (sym p)
            (subst (λ x. DeclaresTerminal (unless_rethrown ports x next)) (sym t)
              (subst
                (λ x. DeclaresTerminal (on_durable contracts ports f entries outcome bundle x s))
                (sym e)
                (declared q.0 (reached_detail undurable q.1) why s-lost
                  (faulted s s-table s-live))))))
