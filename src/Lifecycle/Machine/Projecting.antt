-- ===== src/Lifecycle/Machine/Projecting.antt =====
-- lifecycle/machine.ts, `project` and `commitProjected`, beside advancing step by step.
use mathlib.Core.Bool.{false≢true}
use secure_home_agent_platfo.Prelude.{
  ℕ, ◌+◌, ◌≡◌, refl, inl, inr, false, Option, none, some, List, [], ◌∷◌, ◌++◌, Str, Str-discrete,
  arith, length, Bool-cases, Option-cases, sym, ◌∙◌, ℕ_discrete, if_pos,
}
use secure_home_agent_platfo.Lifecycle.States.{LifecycleState, is_terminal}
use secure_home_agent_platfo.Lifecycle.Transitions.{TransitionKind}
use secure_home_agent_platfo.Lifecycle.Machine.{
  RunMachine, TransitionEntry, TransitionResult, CommitCapability, Step, Projection, projected,
  unprojected, advanced, rejected, advance, advance_to, project, commit_projected, project_from,
  adopt, credit, drop_capability, minted, prepend, committed,
}
use secure_home_agent_platfo.Lifecycle.Machine.Totality.{Rejected, advance-permits}

abbrev onward : RunMachine × TransitionResult → (RunMachine → Option RunMachine) → Option RunMachine
onward (m, advanced s e) rest = rest m
onward (m, rejected s e) rest = none

-- Advancing step by step; `none` if any step is rejected.
pub advance_all : List Step → RunMachine → Option RunMachine
advance_all [] m = some m
advance_all (s ∷ steps) m = onward (advance s.kind s.cause s.at m) (advance_all steps)

advance-eq :
    (next : LifecycleState) (k : TransitionKind) (cause at : Str) (m : RunMachine)
    → is_terminal m.state ≡ false
    → m.table m.state k ≡ some next
    → advance k cause at m ≡ advance_to next k cause at m
unfolding advance
advance-eq next k cause at m live found =
    if_pos (Str-discrete m.run_id m.run_id) refl _ _
    ∙ if_pos (ℕ_discrete m.version m.version) refl _ _
    ∙ rw live (rw found refl)

onward-Rejected :
    (k : TransitionKind) (cause at : Str) (m : RunMachine) (rest : RunMachine → Option RunMachine)
    → Rejected m (advance k cause at m).0 (advance k cause at m).1 k
    → onward (advance k cause at m) rest ≡ none
onward-Rejected k cause at m rest r = rejected-none (advance k cause at m) r.result
  where
    rejected-none :
        (p : RunMachine × TransitionResult) → p.1 ≡ rejected m.state r.entry → onward p rest ≡ none
    rejected-none (m', advanced s e) h = cc
    rejected-none (m', rejected s e) h = refl

abbrev Agrees : RunMachine → Projection → Option RunMachine → Type 0
Agrees m (projected es) o = o ≡ some (adopt es m)
Agrees m (unprojected k from) o = o ≡ none

Agrees-prepend :
    (e : TransitionEntry) (m : RunMachine) (p : Projection) (o : Option RunMachine)
    → Agrees
        (record m { transitions = m.transitions ++ e ∷ []; state = e.to; version = m.version + 1 })
        p
        o
    → Agrees m (prepend e p) o
unfolding adopt
Agrees-prepend e m (projected es) o h = h
Agrees-prepend e m (unprojected k from) o h = h

-- An advance that the state or the table forbids comes to nothing.
onward-forbidden :
    (k : TransitionKind) (cause at : Str) (m : RunMachine) (rest : RunMachine → Option RunMachine)
    → ¬ ((next : LifecycleState) × (is_terminal m.state ≡ false) × (m.table m.state k ≡ some next))
    → onward (advance k cause at m) rest ≡ none
onward-forbidden k cause at m rest h = elim (advance-permits k cause at m) [
  | inl (_, a) ↦ absurd (h (_, a.live, a.declared))
  | inr (_, r) ↦ onward-Rejected k cause at m rest r
]

project_from-Agrees :
    (steps : List Step) (m : RunMachine)
    → Agrees m (project_from m.table m.run_id m.state steps) (advance_all steps m)
unfolding project_from advance_all adopt advance_to
project_from-Agrees [] m = refl
project_from-Agrees (s ∷ steps) m = elim (Bool-cases (is_terminal m.state)) [
  | inl ended ↦
      rw ended (onward-forbidden s.kind s.cause s.at m _ (λ d. false≢true (sym d.1 ∙ ended)))
  | inr live ↦ rw live (elim (Option-cases (m.table m.state s.kind)) [
    | inl missing ↦ rw missing (onward-forbidden s.kind s.cause s.at m _ (λ d. cc (missing, d.2)))
    | inr (next, found) ↦
        rw (found, advance-eq next s.kind s.cause s.at m live found)
          (Agrees-prepend _ m _ _
            (project_from-Agrees steps (advance_to next s.kind s.cause s.at m).0))
  ])
]

adopt-projections :
    (es : List TransitionEntry) (ps : List (ℕ × CommitCapability)) (m : RunMachine)
    → adopt es (record m { projections = ps }) ≡ record (adopt es m) { projections = ps }
unfolding adopt
adopt-projections [] ps m = refl
adopt-projections (e ∷ es) ps m = adopt-projections es ps _

journaled-adopt :
    (es : List TransitionEntry) (m : RunMachine)
    → (adopt es m).journaled_transitions ≡ m.journaled_transitions
unfolding adopt
journaled-adopt [] m = refl
journaled-adopt (e ∷ es) m = journaled-adopt es _

-- A capability just minted is found under its identity and is current.
commit-minted :
    (identity : ℕ) (es : List TransitionEntry) (m : RunMachine)
    → commit_projected identity (minted identity (projected es) m) ≡ (
      credit
          (length es)
          (adopt es (record m { projections = drop_capability identity m.projections })),
      committed,
    )
unfolding commit_projected
commit-minted identity es m = ground arith

-- What a projection and its commit make of the machine, beside the advances one after another.
abbrev pub Commits : ℕ → List Step → RunMachine → RunMachine × Projection → Type 0
Commits identity steps m (m', projected es) =
    let (m'', result) = commit_projected identity m' in
    (n : RunMachine) × (advance_all steps m ≡ some n)
    × (result ≡ committed)
    × (m''.state ≡ n.state)
    × (m''.version ≡ n.version)
    × (m''.transitions ≡ n.transitions)
    × (m''.journaled_transitions ≡ m.journaled_transitions + length es)
Commits identity steps m (m', unprojected k from) = (advance_all steps m ≡ none) × (m' ≡ m)

minted-Commits :
    (identity : ℕ) (steps : List Step) (m : RunMachine) (p : Projection)
    → Agrees m p (advance_all steps m)
    → Commits identity steps m (minted identity p m, p)
unfolding credit
minted-Commits identity steps m (projected es) h =
    let e = commit-minted identity es m in
    let a = adopt-projections es (drop_capability identity m.projections) m in
    (adopt es m, h, rw e, rw (e, a), rw (e, a), rw (e, a), rw (e, a, journaled-adopt es m))
minted-Commits identity steps m (unprojected k from) h = (h, refl)

-- Committing a projection just minted does what advancing by its steps one after another would have
-- done: where every step would advance the machine, the commit is accepted and leaves the same
-- state, version and transition record, with the new entries counted as journaled; and where some
-- step would be rejected the projection fails and the machine is as it was.
pub project-Commits :
    (identity : ℕ) (steps : List Step) (m : RunMachine)
    → Commits identity steps m (project identity steps m)
unfolding project
project-Commits identity steps m =
    minted-Commits identity steps m (project_from m.table m.run_id m.state steps)
      (project_from-Agrees steps m)
