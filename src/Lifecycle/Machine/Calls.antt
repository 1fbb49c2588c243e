-- ===== src/Lifecycle/Machine/Calls.antt =====
-- lifecycle/machine.ts: sequences of calls on a machine.
use secure_home_agent_platfo.Prelude.{
  ite-cases, ℕ, ◌+◌, ◌≡◌, refl, Option, none, some, List, [], ◌∷◌, ◌++◌, Str, arith, length,
  length-append, ◌∙◌, ℕ_discrete, append-nil, append_assoc,
}
use mathlib.Core.Path.{subst₂}
use secure_home_agent_platfo.Lifecycle.States.{LifecycleState, requested}
use secure_home_agent_platfo.Lifecycle.Transitions.{TransitionKind, TransitionTable}
use secure_home_agent_platfo.Lifecycle.Machine.{
  RunMachine, TransitionEntry, WriteClaim, CommitCapability, Step, Projection, projected,
  unprojected, apply, hold, project, stale_projection, commit_projected, confirm_journaled, new,
  project_from, adopt, credit, find_capability, drop_capability, CommitResult, commit_minted,
  minted, committed,
}
use secure_home_agent_platfo.Lifecycle.Machine.Totality.{
  granted, refused, apply-Outcome, hold-Rejected,
}
use secure_home_agent_platfo.Lifecycle.Machine.Record.{
  IsWalk, IsWalk-append, Walks, project_from-Walks, Fits, AllFit, Inv, new-Inv, Advanced-Inv,
  Rejected-Inv, AllFit-lapsed, AllFit-drop_capability, Fits-find_capability,
}

-- The methods of `RunMachine` that change it, with what they are handed. `advance` is `apply` with
-- a claim just taken; `hold` and `confirm_journaled` are open to every caller.
pub data Call : Type 0 where
  applies : WriteClaim → TransitionKind → Str → Str → Call
  holds : TransitionKind → Str → Str → Call
  projects : ℕ → List Step → Call
  commits : ℕ → Call
  confirms : ℕ → ℕ → Call

unfoldable pub step : Call → RunMachine → RunMachine
step (applies c k cause at) m = (apply c k cause at m).0
step (holds k detail at) m = (hold k detail at m).0
step (projects identity steps) m = (project identity steps m).0
step (commits identity) m = (commit_projected identity m).0
step (confirms n r) m = confirm_journaled n r m

unfoldable pub run : List Call → RunMachine → RunMachine
run [] m = m
run (c ∷ cs) m = run cs (step c m)

-- `adopt` appends the entries, counts them, and ends where they end.
pub adopt_lem :
    (es : List TransitionEntry) (t : LifecycleState) (m : RunMachine)
    → IsWalk m.table m.run_id m.state es t
    → adopt es m
      ≡ record m { transitions = m.transitions ++ es; state = t; version = m.version + length es }
unfolding adopt
adopt_lem [] t m w = ground (arith, append-nil m.transitions)
adopt_lem (e ∷ es) t m w =
    adopt_lem es t
      (record m { transitions = m.transitions ++ e ∷ []; state = e.to; version = m.version + 1 })
      w.4
    ∙ ground (arith, append_assoc m.transitions (e ∷ []) es)

module _ (table : TransitionTable) (run_id : Str) where
  AllFit-walked :
      (s t : LifecycleState) (v : ℕ) (es : List TransitionEntry) (ps : List (ℕ × CommitCapability))
      → IsWalk table run_id s es t
      → AllFit table run_id s v ps
      → AllFit table run_id t (v + length es) ps
  AllFit-walked s t v [] ps w fit =
      let same : v + length {A = TransitionEntry} [] ≡ v = omega arith in rw (same, ← w) fit
  AllFit-walked s t v (e ∷ es) ps w fit =
      AllFit-lapsed table run_id s t v (v + length (e ∷ es)) ps (omega arith) fit

-- Adopting entries that walk on from the state keeps the invariant.
adopt-Inv :
    (es : List TransitionEntry) (t : LifecycleState) (m : RunMachine)
    → IsWalk m.table m.run_id m.state es t
    → Inv m
    → Inv (credit (length es) (adopt es m))
unfolding credit
adopt-Inv es t m w v = rw (adopt_lem es t m w) (record {
  walked = IsWalk-append m.table m.run_id requested m.state t m.transitions es v.walked w;
  counted = omega (arith, v.counted, length-append m.transitions es);
  fitting = AllFit-walked m.table m.run_id m.state t m.version es m.projections w v.fitting;
})

commit_minted-Inv :
    (o : Option CommitCapability) (m : RunMachine)
    → ((c : CommitCapability) → o ≡ some c → Fits m.table m.run_id m.state m.version c)
    → Inv m
    → Inv (commit_minted o m).0
unfolding commit_minted
commit_minted-Inv none m fit v = v
commit_minted-Inv (some c) m fit v =
    ite-cases {C = RunMachine × CommitResult} (ℕ_discrete c.from_version m.version) (λ p. Inv p.0)
      (credit (length c.entries) (adopt c.entries m), committed)
      (m, stale_projection c.from_version m.version)
      (λ current.
        let onward = (fit c refl).onward current in adopt-Inv c.entries onward.0 m onward.1 v)
      (λ _. v)

commit-Inv : (i : ℕ) (m : RunMachine) → Inv m → Inv (commit_projected i m).0
unfolding commit_projected
commit-Inv i m v =
    commit_minted-Inv (find_capability i m.projections) _
      (λ c found.
        Fits-find_capability m.table m.run_id i m.state m.version m.projections c v.fitting found)
      (record {
        walked = v.walked;
        counted = v.counted;
        fitting =
            AllFit-drop_capability m.table m.run_id i m.state m.version m.projections v.fitting;
      })

minted-Inv :
    (i : ℕ) (p : Projection) (m : RunMachine)
    → Walks m.table m.run_id m.state p
    → Inv m
    → Inv (minted i p m)
minted-Inv i (projected es) m w v = record {
  walked = v.walked;
  counted = v.counted;
  fitting = (record { old = omega arith; onward = λ _. w }, v.fitting);
}
minted-Inv i (unprojected kind from) m w v = v

apply-Inv :
    (c : WriteClaim) (k : TransitionKind) (cause at : Str) (m : RunMachine)
    → Inv m
    → Inv (apply c k cause at m).0
apply-Inv c k cause at m v = elim (apply-Outcome c k cause at m) [
  | granted a g ↦ Advanced-Inv m _ _ k a v
  | refused r g ↦ Rejected-Inv m _ _ k r v
]

-- Every call, granted or refused, keeps the invariant.
pub step-Inv : (c : Call) (m : RunMachine) → Inv m → Inv (step c m)
unfolding step project confirm_journaled
step-Inv (applies c k cause at) m v = apply-Inv c k cause at m v
step-Inv (holds k detail at) m v = Rejected-Inv m _ _ k (hold-Rejected k detail at m) v
step-Inv (projects i steps) m v =
    minted-Inv i _ m (project_from-Walks m.table m.run_id m.state steps) v
step-Inv (commits i) m v = commit-Inv i m v
step-Inv (confirms n r) m v = record { walked = v.walked; counted = v.counted; fitting = v.fitting }

run-Inv : (cs : List Call) (m : RunMachine) → Inv m → Inv (run cs m)
unfolding run
run-Inv [] m v = v
run-Inv (c ∷ cs) m v = run-Inv cs (step c m) (step-Inv c m v)

abbrev Same : RunMachine → RunMachine → Type 0
Same m m' = (m'.table ≡ m.table) × (m'.run_id ≡ m.run_id)

adopt-Same : (es : List TransitionEntry) (m : RunMachine) → Same m (adopt es m)
unfolding adopt
adopt-Same [] m = (refl, refl)
adopt-Same (e ∷ es) m = adopt-Same es _

-- No call gives the machine another table or another run.
step-Same : (c : Call) (m : RunMachine) → Same m (step c m)
unfolding step project confirm_journaled commit_projected
step-Same (applies c k cause at) m = elim (apply-Outcome c k cause at m) [
  | granted a g ↦ rw a.after (refl, refl)
  | refused r g ↦ rw r.after (refl, refl)
]
step-Same (holds k detail at) m = rw ((hold-Rejected k detail at m).after) (refl, refl)
step-Same (projects i steps) m = minted-Same (project_from m.table m.run_id m.state steps)
  where
    minted-Same : (p : Projection) → Same m (minted i p m)
    minted-Same (projected es) = (refl, refl)
    minted-Same (unprojected k from) = (refl, refl)
step-Same (commits i) m = committed-Same (find_capability i m.projections)
  where
    committed-Same :
        (o : Option CommitCapability)
        → Same m (commit_minted o (record m { projections = drop_capability i m.projections })).0
    committed-Same none = (refl, refl)
    committed-Same (some c) =
        ground
          (arith, adopt-Same c.entries (record m { projections = drop_capability i m.projections }))
step-Same (confirms n r) m = (refl, refl)

run-Same : (cs : List Call) (m : RunMachine) → Same m (run cs m)
unfolding run
run-Same [] m = (refl, refl)
run-Same (c ∷ cs) m =
    let s = step-Same c m in let r = run-Same cs (step c m) in (r.0 ∙ s.0, r.1 ∙ s.1)

-- After any sequence of calls on a new machine, whatever table it was given, the machine still has
-- that table and that run, its recorded transitions are a walk by the table from REQUESTED to the
-- machine's state, out of no terminal state, and the version counts them.
pub run-new-IsWalk :
    (run_id : Str) (table : TransitionTable) (cs : List Call)
    → let m = run cs (new run_id table) in
      IsWalk table run_id requested m.transitions m.state × (m.version ≡ length m.transitions)
unfolding new
run-new-IsWalk run_id table cs =
    let v = run-Inv cs _ (new-Inv run_id table) in
    let s = run-Same cs (new run_id table) in
    (
      subst₂
          (λ t r.
            IsWalk t r requested (run cs (new run_id table)).transitions
              (run cs (new run_id table)).state)
          s.0 s.1 v.walked,
      v.counted,
    )
