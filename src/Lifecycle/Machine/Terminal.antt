-- ===== src/Lifecycle/Machine/Terminal.antt =====
-- lifecycle/machine.ts: terminal states, and claims that compete for a version.
use secure_home_agent_platfo.Prelude.{
  ite-cases, ◌+◌, ◌≤◌, ◌≡◌, refl, true, Option, none, some, List, [], ◌∷◌, ◌++◌, Str, arith, length,
  sym, ◌∙◌, ap, subst, ℕ_discrete,
}
use mathlib.Core.Bool.{false≢true}
use secure_home_agent_platfo.Lifecycle.States.{LifecycleState, is_terminal}
use secure_home_agent_platfo.Lifecycle.Transitions.{TransitionKind, TransitionTable}
use secure_home_agent_platfo.Lifecycle.Machine.{
  RunMachine, TransitionEntry, WriteClaim, CommitCapability, Projection, projected, unprojected,
  apply, project, stale_projection, commit_projected, confirm_journaled, project_from, adopt,
  credit, find_capability, drop_capability, CommitResult, commit_minted, minted, committed,
}
use secure_home_agent_platfo.Lifecycle.Machine.Totality.{
  Grants, Rejected, granted, refused, apply-Outcome, hold-Rejected,
}
use secure_home_agent_platfo.Lifecycle.Machine.Record.{IsWalk, Fits, Inv, Fits-find_capability}
use secure_home_agent_platfo.Lifecycle.Machine.Calls.{
  Call, applies, holds, projects, commits, confirms, step, run, step-Inv,
}

adopt-version-le : (es : List TransitionEntry) (m : RunMachine) → m.version ≤ (adopt es m).version
unfolding adopt
adopt-version-le [] m = omega arith
adopt-version-le (e ∷ es) m = omega (
  arith,
  adopt-version-le es
      (record m { transitions = m.transitions ++ e ∷ []; state = e.to; version = m.version + 1 }),
)

IsWalk_of_terminal :
    (table : TransitionTable) (run_id : Str) (s t : LifecycleState) (es : List TransitionEntry)
    → is_terminal s ≡ true
    → IsWalk table run_id s es t
    → es ≡ []
IsWalk_of_terminal table run_id s t [] h w = refl
IsWalk_of_terminal table run_id s t (e ∷ es) h w = absurd (false≢true (sym w.2 ∙ h))

abbrev pub Still : RunMachine → RunMachine → Type 0
Still m m' = (m'.state ≡ m.state) × (m'.transitions ≡ m.transitions) × (m'.version ≡ m.version)

commit_minted-Still :
    (o : Option CommitCapability) (m : RunMachine)
    → ((c : CommitCapability) → o ≡ some c → Fits m.table m.run_id m.state m.version c)
    → is_terminal m.state ≡ true
    → Still m (commit_minted o m).0
unfolding commit_minted adopt credit
commit_minted-Still none m fit h = (refl, refl, refl)
commit_minted-Still (some c) m fit h =
    ite-cases {C = RunMachine × CommitResult} (ℕ_discrete c.from_version m.version)
      (λ p. Still m p.0) (credit (length c.entries) (adopt c.entries m), committed)
      (m, stale_projection c.from_version m.version)
      (λ current.
        let onward = (fit c refl).onward current in
        let empty = IsWalk_of_terminal m.table m.run_id m.state onward.0 c.entries h onward.1 in
        subst (λ es. Still m (credit (length es) (adopt es m))) (sym empty) (refl, refl, refl))
      (λ _. (refl, refl, refl))

-- A terminal state accepts nothing: no call, a commit of a projection included, changes the state,
-- the transition record or the version.
pub step_of_terminal :
    (c : Call) (m : RunMachine) → Inv m → is_terminal m.state ≡ true → Still m (step c m)
unfolding step project confirm_journaled commit_projected
step_of_terminal (applies c k cause at) m v h = elim (apply-Outcome c k cause at m) [
  | granted a g ↦ absurd (false≢true (sym a.live ∙ h))
  | refused r g ↦ rw r.after (refl, refl, refl)
]
step_of_terminal (holds k detail at) m v h =
    rw ((hold-Rejected k detail at m).after) (refl, refl, refl)
step_of_terminal (projects i steps) m v h =
    minted-Still (project_from m.table m.run_id m.state steps)
  where
    minted-Still : (p : Projection) → Still m (minted i p m)
    minted-Still (projected es) = (refl, refl, refl)
    minted-Still (unprojected k from) = (refl, refl, refl)
step_of_terminal (commits i) m v h =
    commit_minted-Still (find_capability i m.projections) _
      (λ c found.
        Fits-find_capability m.table m.run_id i m.state m.version m.projections c v.fitting found)
      h
step_of_terminal (confirms n r) m v h = (refl, refl, refl)

-- Where a machine satisfies the invariant of its record and its state is terminal, no sequence of
-- calls, commits of projections included, changes its state, its transition record or its version.
pub run_of_terminal :
    (cs : List Call) (m : RunMachine) → Inv m → is_terminal m.state ≡ true → Still m (run cs m)
unfolding run
run_of_terminal [] m v h = (refl, refl, refl)
run_of_terminal (c ∷ cs) m v h =
    let s = step_of_terminal c m v h in
    let r = run_of_terminal cs (step c m) (step-Inv c m v) (ap is_terminal s.0 ∙ h) in
    (r.0 ∙ s.0, r.1 ∙ s.1, r.2 ∙ s.2)

commit_minted-version-le :
    (o : Option CommitCapability) (m : RunMachine) → m.version ≤ (commit_minted o m).0.version
unfolding commit_minted credit
commit_minted-version-le none m = omega arith
commit_minted-version-le (some c) m = ground (arith, adopt-version-le c.entries m)

-- The version never falls.
version-step-le : (c : Call) (m : RunMachine) → m.version ≤ (step c m).version
unfolding step project confirm_journaled commit_projected
version-step-le (applies c k cause at) m = elim (apply-Outcome c k cause at m) [
  | granted a g ↦ rw a.after (omega arith)
  | refused r g ↦ rw r.after (omega arith)
]
version-step-le (holds k detail at) m = rw ((hold-Rejected k detail at m).after) (omega arith)
version-step-le (projects i steps) m = minted-le (project_from m.table m.run_id m.state steps)
  where
    minted-le : (p : Projection) → m.version ≤ (minted i p m).version
    minted-le (projected es) = omega arith
    minted-le (unprojected k from) = omega arith
version-step-le (commits i) m =
    commit_minted-version-le (find_capability i m.projections)
      (record m { projections = drop_capability i m.projections })
version-step-le (confirms n r) m = omega arith

version-run-le : (cs : List Call) (m : RunMachine) → m.version ≤ (run cs m).version
unfolding run
version-run-le [] m = omega arith
version-run-le (c ∷ cs) m = omega (arith, version-step-le c m, version-run-le cs (step c m))

-- One writer: once a claim has been used to advance the machine, no claim taken at the same version
-- advances it, whatever calls come between; the late one is recorded as a rejection.
pub one_writer :
    (c d : WriteClaim) (k l : TransitionKind) (cause at cause' at' : Str) (m : RunMachine)
    (cs : List Call)
    → Grants c k m
    → c.version ≡ d.version
    → let m' = run cs (apply c k cause at m).0 in
      Rejected m' (apply d l cause' at' m').0 (apply d l cause' at' m').1 l
one_writer c d k l cause at cause' at' m cs g same = elim (apply-Outcome c k cause at m) [
  | refused r h ↦ absurd (h g)
  | granted a h ↦ elim (apply-Outcome d l cause' at' (run cs (apply c k cause at m).0)) [
    | refused r h' ↦ r
    | granted a' h' ↦ absurd (
        omega (
          arith,
          version-run-le cs (apply c k cause at m).0,
          h'.1,
          g.1,
          same,
          ap (λ (x : RunMachine). x.version) a.after,
        ))
  ]
]
