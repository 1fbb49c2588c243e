-- ===== src/Lifecycle/Machine/Record.antt =====
-- lifecycle/machine.ts: the transition record as a walk by the table, and the minted projections.
use secure_home_agent_platfo.Prelude.{
  ℕ, ◌+◌, ◌≤◌, ◌<◌, ◌≡◌, refl, inl, inr, false, some, List, [], ◌∷◌, ◌++◌, Str, arith, length,
  length-append, Bool-cases, Option-cases, sym, subst, All, ℕ_discrete,
}
use secure_home_agent_platfo.Lifecycle.States.{LifecycleState, requested, is_terminal}
use secure_home_agent_platfo.Lifecycle.Transitions.{TransitionKind, TransitionTable}
use secure_home_agent_platfo.Lifecycle.Machine.{
  RunMachine, TransitionEntry, TransitionResult, CommitCapability, Step, Projection, projected,
  unprojected, new, project_from, find_capability, drop_capability, prepend,
}
use secure_home_agent_platfo.Lifecycle.Machine.Totality.{Advanced, Rejected}

-- The entries lead from one state to another by declared transitions of one run, none of them out
-- of a terminal state.
abbrev pub IsWalk :
    TransitionTable → Str → LifecycleState → List TransitionEntry → LifecycleState → Type 0
IsWalk table run_id s [] s' = s ≡ s'
IsWalk table run_id s (e ∷ es) s' =
    (e.run_id ≡ run_id)
    × (e.from ≡ s)
    × (is_terminal s ≡ false)
    × (table s e.kind ≡ some e.to)
    × IsWalk table run_id e.to es s'

module _ (table : TransitionTable) (run_id : Str) where
  pub IsWalk-append :
      (s t u : LifecycleState) (es fs : List TransitionEntry)
      → IsWalk table run_id s es t
      → IsWalk table run_id t fs u
      → IsWalk table run_id s (es ++ fs) u
  IsWalk-append s t u [] fs h k = subst (λ x. IsWalk table run_id x fs u) (sym h) k
  IsWalk-append s t u (e ∷ es) fs h k = (h.0, h.1, h.2, h.3, IsWalk-append e.to t u es fs h.4 k)

  abbrev pub Walks : LifecycleState → Projection → Type 0
  Walks s (projected es) = (t : LifecycleState) × IsWalk table run_id s es t
  Walks s (unprojected kind from) = Unit

  prepend-Walks :
      (s : LifecycleState) (e : TransitionEntry) (p : Projection)
      → e.run_id ≡ run_id
      → e.from ≡ s
      → is_terminal s ≡ false
      → table s e.kind ≡ some e.to
      → Walks e.to p
      → Walks s (prepend e p)
  prepend-Walks s e (projected es) named at_s live declared w =
      (w.0, (named, at_s, live, declared, w.1))
  prepend-Walks s e (unprojected kind from) named at_s live declared w = tt

  pub project_from-Walks :
      (s : LifecycleState) (steps : List Step) → Walks s (project_from table run_id s steps)
  unfolding project_from
  project_from-Walks s [] = (s, refl)
  project_from-Walks s (x ∷ xs) = elim (Bool-cases (is_terminal s)) [
    | inl ended ↦ rw ended tt
    | inr live ↦ rw live (elim (Option-cases (table s x.kind)) [
      | inl missing ↦ rw missing tt
      | inr (next, found) ↦
          rw found (prepend-Walks s _ _ refl refl live found (project_from-Walks next xs))
    ])
  ]

-- A capability was minted at this version or an earlier one; at this version its entries walk on
-- from the state.
pub record Fits (table : TransitionTable) (run_id : Str) (s : LifecycleState) (version : ℕ)
    (c : CommitCapability) : Type 0 where
  pub old : c.from_version ≤ version
  pub onward : c.from_version ≡ version → (t : LifecycleState) × IsWalk table run_id s c.entries t

abbrev pub AllFit :
    TransitionTable → Str → LifecycleState → ℕ → List (ℕ × CommitCapability) → Type 0
AllFit table run_id s version = All (λ p. Fits table run_id s version p.1)

-- The transition record is a walk from the first state to the present one, with one entry for each
-- version, and no capability that is still good leads anywhere but onward.
pub record Inv (m : RunMachine) : Type 0 where
  pub walked : IsWalk m.table m.run_id requested m.transitions m.state
  pub counted : m.version ≡ length m.transitions
  pub fitting : AllFit m.table m.run_id m.state m.version m.projections

pub new-Inv : (run_id : Str) (table : TransitionTable) → Inv (new run_id table)
unfolding new
new-Inv run_id table = record { walked = refl; counted = refl; fitting = tt }

module _ (table : TransitionTable) (run_id : Str) where
  -- Once the version has grown, the older capabilities have lapsed.
  pub AllFit-lapsed :
      (s t : LifecycleState) (v w : ℕ) (ps : List (ℕ × CommitCapability))
      → v < w
      → AllFit table run_id s v ps
      → AllFit table run_id t w ps
  AllFit-lapsed s t v w [] h fit = tt
  AllFit-lapsed s t v w (p ∷ ps) h fit =
      let older = fit.0.old in
      (
        record { old = omega arith; onward = λ e. absurd (omega arith) },
        AllFit-lapsed s t v w ps h fit.1,
      )

  pub AllFit-drop_capability :
      (i : ℕ) (s : LifecycleState) (v : ℕ) (ps : List (ℕ × CommitCapability))
      → AllFit table run_id s v ps
      → AllFit table run_id s v (drop_capability i ps)
  unfolding drop_capability
  AllFit-drop_capability i s v [] fit = tt
  AllFit-drop_capability i s v ((j, c) ∷ ps) fit =
      ground (arith, AllFit-drop_capability i s v ps fit.1)

  pub Fits-find_capability :
      (i : ℕ) (s : LifecycleState) (v : ℕ) (ps : List (ℕ × CommitCapability)) (c : CommitCapability)
      → AllFit table run_id s v ps
      → find_capability i ps ≡ some c
      → Fits table run_id s v c
  unfolding find_capability
  Fits-find_capability i s v [] c fit h = cc
  Fits-find_capability i s v ((j, d) ∷ ps) c fit h = elim (ℕ_discrete j i) [
    | yes hit ↦ subst (Fits table run_id s v) (ground arith) fit.0
    | no miss ↦ Fits-find_capability i s v ps c fit.1 (ground arith)
  ]

pub Advanced-Inv :
    (m m' : RunMachine) (r : TransitionResult) (k : TransitionKind)
    → Advanced m m' r k
    → Inv m
    → Inv m'
Advanced-Inv m m' r k a v = rw a.after (record {
  walked =
      IsWalk-append m.table m.run_id requested m.state a.entry.to m.transitions (a.entry ∷ [])
        v.walked
        (a.names_run, a.names_from, a.live, cc (a.names_kind, a.declared, a.names_to), refl);
  counted = omega (arith, v.counted, length-append m.transitions (a.entry ∷ []));
  fitting =
      AllFit-lapsed m.table m.run_id m.state a.entry.to m.version (m.version + 1) m.projections
        (omega arith) v.fitting;
})

pub Rejected-Inv :
    (m m' : RunMachine) (r : TransitionResult) (k : TransitionKind)
    → Rejected m m' r k
    → Inv m
    → Inv m'
Rejected-Inv m m' r k a v =
    rw a.after (record { walked = v.walked; counted = v.counted; fitting = v.fitting })
