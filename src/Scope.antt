-- ===== src/Scope.antt =====
-- services/runner-control/src/run/scope.ts, `RunScope.reachTerminal`: the terminal transitions that are
-- taken outside the walk. What the clock answers during each of the two attempts is an argument.
pub mod Release
use secure_home_agent_platfo.Prelude.{
  ◌≡◌, refl, ◌≢◌, inl, inr, true, false, some, ◌++◌, ite, ite-cases, subst, List, [], ◌∷◌, Str,
  text,
}
use secure_home_agent_platfo.Lifecycle.States.{LifecycleState, state_name}
use secure_home_agent_platfo.Lifecycle.Transitions.{
  TransitionKind, TransitionKind-discrete, indeterminate, kind_name,
}
use secure_home_agent_platfo.Lifecycle.Machine.{
  RunMachine, TransitionResult, TransitionEntry, RejectionEntry, advanced, rejected, advance,
  permits,
}
use secure_home_agent_platfo.Lifecycle.Machine.Totality.{advance-permits}

pub data TerminalReach : Type 0 where
  ok : TransitionKind → TerminalReach
  not_ok : Str → TerminalReach

pub refused_detail : TransitionKind → RunMachine → Str
refused_detail kind m =
    text "the machine granted no terminal from "
    ++ (state_name m.state
        ++ (text ": " ++ (kind_name kind ++ text " was refused, and so was indeterminate")))

-- The end of the second attempt.
settled : TransitionKind → RunMachine × TransitionResult → RunMachine × TerminalReach
settled kind (m, advanced s e) = (m, ok indeterminate)
settled kind (m, rejected s e) = (m, not_ok (refused_detail kind m))

abbrev fallback_cause : TransitionKind → Str → LifecycleState → Str
fallback_cause kind why from =
    why
    ++ (text "; and the machine declares no "
        ++ (kind_name kind
            ++ (text " from "
                ++ (state_name from ++ text ", so the terminal state cannot be established"))))

-- What follows the first attempt.
fall_back :
    TransitionKind
    → Str
    → Str
    → LifecycleState
    → RunMachine × TransitionResult
    → RunMachine × TerminalReach
unfolding settled
fall_back kind why at from (m, advanced s e) = (m, ok kind)
fall_back kind why at from (m, rejected s e) =
    ite (TransitionKind-discrete kind indeterminate) (m, not_ok (refused_detail kind m))
      (settled kind (advance indeterminate (fallback_cause kind why from) at m))

unfoldable pub reach_terminal :
    TransitionKind → Str → Str → Str → RunMachine → RunMachine × TerminalReach
unfolding fall_back
reach_terminal kind why at at' m = fall_back kind why at' m.state (advance kind why at m)

-- How an attempt to end the run can go: as asked, with INDETERMINATE in its place, or not at all.
pub data Reached (k : TransitionKind) (m : RunMachine) (p : RunMachine × TerminalReach)
    : Type 0 where
  as_asked : permits k m ≡ true → p.1 ≡ ok k → m.table m.state k ≡ some p.0.state → Reached k m p
  in_place :
      permits k m ≡ false
      → k ≢ indeterminate
      → permits indeterminate m ≡ true
      → p.1 ≡ ok indeterminate
      → m.table m.state indeterminate ≡ some p.0.state
      → Reached k m p
  unreached :
      permits k m ≡ false
      → permits indeterminate m ≡ false
      → p.1 ≡ not_ok (refused_detail k m)
      → p.0.state ≡ m.state
      → p.0.transitions ≡ m.transitions
      → Reached k m p

fall_back-advanced :
    (k : TransitionKind) (why at : Str) (from : LifecycleState) (p : RunMachine × TransitionResult)
    (s : LifecycleState) (e : TransitionEntry)
    → p.1 ≡ advanced s e
    → fall_back k why at from p ≡ (p.0, ok k)
unfolding fall_back
fall_back-advanced k why at from p s e h = rw h refl

fall_back-rejected :
    (k : TransitionKind) (why at : Str) (from : LifecycleState) (p : RunMachine × TransitionResult)
    (s : LifecycleState) (e : RejectionEntry)
    → p.1 ≡ rejected s e
    → fall_back k why at from p
      ≡ ite
          (TransitionKind-discrete k indeterminate)
          (p.0, not_ok (refused_detail k p.0))
          (settled k (advance indeterminate (fallback_cause k why from) at p.0))
unfolding fall_back
fall_back-rejected k why at from p s e h = rw h refl

unreached_detail :
    (k : TransitionKind) (m : RunMachine) (rejections : List RejectionEntry)
    → not_ok (refused_detail k (record m { rejections = rejections })) ≡ not_ok (refused_detail k m)
unfolding refused_detail
unreached_detail k m rejections = refl

settled-Reached :
    (k : TransitionKind) (cause at : Str) (m : RunMachine) (rejections : List RejectionEntry)
    → permits k m ≡ false
    → k ≢ indeterminate
    → Reached k m
        (settled k (advance indeterminate cause at (record m { rejections = rejections })))
unfolding settled permits refused_detail
settled-Reached k cause at m rejections h n =
    elim (advance-permits indeterminate cause at (record m { rejections = rejections })) [
      | inl (p, a) ↦ rw (a.result) (in_place h n p refl a.declared)
      | inr (p, r) ↦ rw (r.result, r.after) (unreached h p refl refl refl)
    ]

-- An attempt to end the run ends it by the kind asked for exactly where the machine permits that kind;
-- where it does not but permits INDETERMINATE, that ends it; and where it permits neither, the answer
-- says so and neither the state nor the record changes. An answer `ok` names the transition taken.
pub reach_terminal-Reached :
    (k : TransitionKind) (why at at' : Str) (m : RunMachine)
    → Reached k m (reach_terminal k why at at' m)
unfolding reach_terminal
reach_terminal-Reached k why at at' m = elim (advance-permits k why at m) [
  | inl (p, a) ↦
      rw
        (fall_back-advanced k why at' m.state (advance k why at m) (advance k why at m).0.state
          a.entry a.result)
        (as_asked p refl a.declared)
  | inr (p, r) ↦
      let m' = record m { rejections = m.rejections ++ r.entry ∷ [] } in
      rw
        (
          fall_back-rejected k why at' m.state (advance k why at m) m.state r.entry r.result,
          r.after,
        )
        (ite-cases {C = RunMachine × TerminalReach} (TransitionKind-discrete k indeterminate)
          (Reached k m) (m', not_ok (refused_detail k m'))
          (settled k (advance indeterminate (fallback_cause k why m.state) at' m'))
          (λ e.
            unreached p (subst (λ l. permits l m ≡ false) e p) (unreached_detail k m m'.rejections)
              refl refl)
          (λ n. settled-Reached k (fallback_cause k why m.state) at' m m'.rejections p n))
]
