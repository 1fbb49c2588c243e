-- ===== src/Orchestration/Dispossessed.antt =====
-- orchestration/terminate.ts: the endings of a run that has lost its fence.
use secure_home_agent_platfo.Prelude.{◌≡◌, refl, subst, sym, some, Str}
use secure_home_agent_platfo.Scope.Release.{RunScope, release, disarm}
use secure_home_agent_platfo.Lifecycle.Transitions.{TransitionKind}
use secure_home_agent_platfo.Orchestration.Flush.{emptied, flush_journal}
use secure_home_agent_platfo.Orchestration.Conclude.{
  Produced, no_record, RunConclusion, ownership_lost, Ended, answers, Ports, Run, tick,
  unless_rethrown, releasing, clean_up_all, conclude, conclusion_of, concluded,
}
use secure_home_agent_platfo.Orchestration.Terminate.{
  Contracts, terminate_early, write_early_terminal_record, early_as, write_as,
}
use secure_home_agent_platfo.Orchestration.Finish.{Finishing, finish, finish_as}

-- The run asked nothing of the world, its machine and its outbox are as they were, and the conclusion
-- claims neither a terminal nor a record.
pub record IsAbandoned {W Early : Type 0} (r : Run W Early) (p : Run W Early × Ended RunConclusion)
    : Type 0 where
  pub conclusion : RunConclusion
  pub answered : p.1 ≡ answers conclusion
  pub kind : conclusion.kind ≡ ownership_lost
  pub produced : conclusion.produced ≡ no_record
  pub world : p.0.world ≡ r.world
  pub machine : p.0.machine ≡ r.machine
  pub outbox : p.0.outbox ≡ r.outbox

module _ {W Early Bundle : Type 0} (ports : Ports W Early Bundle) where
  tick_of_lost :
      (r : Run W Early) (why : Str)
      → r.scope.fence_lost ≡ some why
      → tick ports.settled_journal r ≡ (r, emptied)
  unfolding tick flush_journal
  tick_of_lost r why h = rw h refl

  releasing-IsAbandoned :
      (produced : Produced) (detail : Str) (r : Run W Early) (why : Str)
      → r.scope.fence_lost ≡ some why
      → IsAbandoned r (releasing ports produced detail r)
  unfolding release conclusion_of concluded clean_up_all
  releasing-IsAbandoned produced detail r why h = record {
    conclusion = conclusion_of produced detail (releasing ports produced detail r).0;
    answered = refl;
    kind = rw h refl;
    produced = rw h refl;
    world = rw h refl;
    machine = refl;
    outbox = refl;
  }

  rescoped :
      (r : Run W Early) (s : RunScope) (p : Run W Early × Ended RunConclusion)
      → IsAbandoned (record r { scope = s }) p
      → IsAbandoned r p
  rescoped r s p a = record {
    conclusion = a.conclusion;
    answered = a.answered;
    kind = a.kind;
    produced = a.produced;
    world = a.world;
    machine = a.machine;
    outbox = a.outbox;
  }

  pub conclude-IsAbandoned :
      (produced : Produced) (detail : Str) (r : Run W Early) (why : Str)
      → r.scope.fence_lost ≡ some why
      → IsAbandoned r (conclude ports produced detail r)
  unfolding conclude disarm
  conclude-IsAbandoned produced detail r why h =
      let r' = record r { scope = disarm r.scope } in
      let e = tick_of_lost r' why h in
      let rel = releasing ports produced detail in
      let next = λ (s : Run W Early). unless_rethrown ports (tick ports.settled_journal s) rel in
      rescoped r (disarm r.scope) _ (
        subst (λ p. IsAbandoned r' (unless_rethrown ports p next)) (sym e)
          (subst (λ p. IsAbandoned r' (unless_rethrown ports p rel)) (sym e)
            (releasing-IsAbandoned produced detail r' why h)))

-- The three ways in which a run that is not in flight is ended.
pub data Ending (Registry : Type 0) : Type 0 where
  terminates_early : TransitionKind → Str → Ending Registry
  writes_early_record : Str → Ending Registry
  finishes : Finishing Registry → Ending Registry

module _ {W Early Bundle Registry : Type 0} (contracts : Contracts Early Bundle)
    (ports : Ports W Early Bundle) where
  unfoldable pub end_run : Ending Registry → Run W Early → Run W Early × Ended RunConclusion
  end_run (terminates_early kind detail) r = terminate_early contracts ports kind detail r
  end_run (writes_early_record detail) r = write_early_terminal_record contracts ports detail r
  end_run (finishes f) r = finish contracts ports f r

  -- A run that has lost its fence declares no terminal and writes nothing when it is terminated early,
  -- when its early record is written and when it is finished: nothing is asked of the world, no
  -- transition is taken, no fact leaves the outbox, and the conclusion says that ownership was lost and
  -- that nothing was produced.
  pub end_run-IsAbandoned :
      (e : Ending Registry) (r : Run W Early) (why : Str)
      → r.scope.fence_lost ≡ some why
      → IsAbandoned r (end_run e r)
  unfolding end_run terminate_early write_early_terminal_record finish
  end_run-IsAbandoned (terminates_early kind detail) r why h =
      subst (λ o. IsAbandoned r (early_as contracts ports o kind detail r)) (sym h)
        (conclude-IsAbandoned ports no_record detail r why h)
  end_run-IsAbandoned (writes_early_record detail) r why h =
      subst (λ o. IsAbandoned r (write_as contracts ports o detail r)) (sym h)
        (conclude-IsAbandoned ports no_record detail r why h)
  end_run-IsAbandoned (finishes f) r why h =
      subst (λ o. IsAbandoned r (finish_as contracts ports f o r)) (sym h)
        (conclude-IsAbandoned ports no_record f.detail r why h)
