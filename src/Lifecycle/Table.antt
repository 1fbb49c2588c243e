-- ===== src/Lifecycle/Table.antt =====
-- lifecycle/transitions.ts, `TRANSITIONS`: what the declared table itself grants.
use secure_home_agent_platfo.Prelude.{
  ℕ, ◌+◌, ◌≤◌, ◌<◌, ◌≡◌, refl, true, false, some, List, [], ◌∷◌, map, Str, arith, length, ap, subst,
  none, Option,
}
use secure_home_agent_platfo.Lifecycle.States.{
  LifecycleState, requested, profile_resolved, eligible, sandbox_started, running, verifying,
  evidence_sealed, completed, refused, operational_failure, cancelled, timed_out, is_terminal,
}
use secure_home_agent_platfo.Lifecycle.Transitions.{
  TransitionKind, resolve_profile, decide_eligibility, commit_spend, begin_execution,
  begin_verification, seal_evidence, complete, refuse, operational_fault, cancel, timeout,
  transitions,
}
use secure_home_agent_platfo.Lifecycle.Machine.{TransitionEntry, new}
use secure_home_agent_platfo.Lifecycle.Machine.Record.{IsWalk}
use secure_home_agent_platfo.Lifecycle.Machine.Calls.{Call, run, run-new-IsWalk}

-- How far along a state is; every declared transition leads further.
abbrev rank : LifecycleState → ℕ
rank requested = 0
rank profile_resolved = 1
rank eligible = 2
rank sandbox_started = 3
rank running = 4
rank verifying = 5
rank evidence_sealed = 6
rank _ = 7

abbrev pub order : List TransitionKind
order =
    resolve_profile ∷ decide_eligibility ∷ commit_spend ∷ begin_execution ∷ begin_verification
    ∷ seal_evidence ∷ complete ∷ []

-- The kinds lead from the state to COMPLETED along the declared order.
abbrev Completes : LifecycleState → List TransitionKind → Type 0
Completes completed ks = ks ≡ []
Completes evidence_sealed ks = ks ≡ complete ∷ []
Completes verifying ks = ks ≡ seal_evidence ∷ complete ∷ []
Completes running ks = ks ≡ begin_verification ∷ seal_evidence ∷ complete ∷ []
Completes sandbox_started ks =
    ks ≡ begin_execution ∷ begin_verification ∷ seal_evidence ∷ complete ∷ []
Completes eligible ks =
    ks ≡ commit_spend ∷ begin_execution ∷ begin_verification ∷ seal_evidence ∷ complete ∷ []
Completes profile_resolved ks =
    ks
    ≡ decide_eligibility ∷ commit_spend ∷ begin_execution ∷ begin_verification ∷ seal_evidence
      ∷ complete ∷ []
Completes requested ks = ks ≡ order
Completes _ ks = ⊥

rank-transitions :
    (s t : LifecycleState) (k : TransitionKind) → transitions s k ≡ some t → rank s < rank t
unfolding transitions
rank-transitions s t k h = ground arith

Completes-cons :
    (s t : LifecycleState) (k : TransitionKind) (ks : List TransitionKind)
    → transitions s k ≡ some t
    → Completes t ks
    → Completes s (k ∷ ks)
unfolding transitions
Completes-cons requested t k ks h c = ground arith
Completes-cons _ t k ks h c = ground arith

length-IsWalk-le :
    (run_id : Str) (s t : LifecycleState) (es : List TransitionEntry)
    → IsWalk transitions run_id s es t
    → rank s + length es ≤ rank t
length-IsWalk-le run_id s t [] w = omega (arith, ap rank w)
length-IsWalk-le run_id s t (e ∷ es) w =
    omega (arith, rank-transitions s e.to e.kind w.3, length-IsWalk-le run_id e.to t es w.4)

rank-le : (s : LifecycleState) → rank s ≤ 7
rank-le requested = omega arith
rank-le _ = omega arith

-- Under the declared table a run takes at most seven transitions, whatever calls are made on its
-- machine, commits of projections included.
pub length-transitions-le :
    (run_id : Str) (cs : List Call) → length (run cs (new run_id transitions)).transitions ≤ 7
length-transitions-le run_id cs =
    let m = run cs (new run_id transitions) in
    omega (
      arith,
      length-IsWalk-le run_id requested m.state m.transitions
          (run-new-IsWalk run_id transitions cs).0,
      rank-le m.state,
    )

IsWalk-Completes :
    (run_id : Str) (s : LifecycleState) (es : List TransitionEntry)
    → IsWalk transitions run_id s es completed
    → Completes s (map (λ (e : TransitionEntry). e.kind) es)
IsWalk-Completes run_id s [] w = rw w refl
IsWalk-Completes run_id s (e ∷ es) w =
    Completes-cons s e.to e.kind _ w.3 (IsWalk-Completes run_id e.to es w.4)

-- A run is COMPLETED only after all seven progress transitions, each once and in the declared
-- order, whatever calls were made on its machine: the seal among them, before the completion.
pub completed_in_order :
    (run_id : Str) (cs : List Call)
    → (run cs (new run_id transitions)).state ≡ completed
    → map (λ (e : TransitionEntry). e.kind) (run cs (new run_id transitions)).transitions ≡ order
completed_in_order run_id cs h =
    let m = run cs (new run_id transitions) in
    IsWalk-Completes run_id requested m.transitions (
      subst (IsWalk transitions run_id requested m.transitions) h
        (run-new-IsWalk run_id transitions cs).0)

-- The state that each of the five terminal kinds lands in; `none` for a progress kind.
abbrev pub landing : TransitionKind → Option LifecycleState
landing refuse = some refused
landing operational_fault = some operational_failure
landing cancel = some cancelled
landing timeout = some timed_out
landing TransitionKind.indeterminate = some LifecycleState.indeterminate
landing _ = none

-- Out of every state that is not terminal, each of the five terminal kinds is declared and leads to
-- its own terminal state.
pub transitions_of_landing :
    (s t : LifecycleState) (k : TransitionKind)
    → is_terminal s ≡ false
    → landing k ≡ some t
    → transitions s k ≡ some t
unfolding transitions is_terminal
transitions_of_landing requested t k live h = ground arith
transitions_of_landing _ t k live h = ground arith

pub is_terminal-landing :
    (t : LifecycleState) (k : TransitionKind) → landing k ≡ some t → is_terminal t ≡ true
unfolding is_terminal
is_terminal-landing t refuse h = ground arith
is_terminal-landing t _ h = ground arith

-- Apart from the five terminal kinds, a state declares one transition at most: two declared ones are
-- of one kind and lead to one state.
pub progress_unique :
    (s t u : LifecycleState) (k l : TransitionKind)
    → transitions s k ≡ some t
    → transitions s l ≡ some u
    → landing k ≡ none
    → landing l ≡ none
    → (k ≡ l) × (t ≡ u)
unfolding transitions
progress_unique requested t u k l h i p q = ground arith
progress_unique _ t u k l h i p q = ground arith
