-- ===== src/Lifecycle/Machine/Totality.antt =====
-- lifecycle/machine.ts. What one call of `apply`, `hold` or `permits` does on every branch.
use mathlib.Core.Bool.{false≢true}
use secure_home_agent_platfo.Prelude.{
  ◌+◌, ◌≡◌, refl, ◌⊎◌, inl, inr, true, false, some, [], ◌∷◌, ◌++◌, Str, Str-discrete, ℕ_discrete,
  if_pos, if_neg, Bool-cases, Option-cases, sym, ◌∙◌,
}
use secure_home_agent_platfo.Lifecycle.States.{LifecycleState, is_terminal}
use secure_home_agent_platfo.Lifecycle.Transitions.{TransitionKind}
use secure_home_agent_platfo.Lifecycle.Machine.{
  RunMachine, TransitionEntry, RejectionEntry, TransitionResult, WriteClaim, advanced, rejected,
  apply, RejectionReason, precondition_unmet, reject, advance_to, hold, claim, advance, permits,
}

-- The machine took a transition that its table declares from a state that is not terminal.
pub record Advanced (m m' : RunMachine) (r : TransitionResult) (k : TransitionKind) : Type 0 where
  pub entry : TransitionEntry
  pub result : r ≡ advanced m'.state entry
  pub declared : m.table m.state k ≡ some m'.state
  pub live : is_terminal m.state ≡ false
  pub after : m' ≡ record m {
    state = entry.to;
    version = m.version + 1;
    transitions = m.transitions ++ entry ∷ [];
  }
  pub names_run : entry.run_id ≡ m.run_id
  pub names_from : entry.from ≡ m.state
  pub names_to : entry.to ≡ m'.state
  pub names_kind : entry.kind ≡ k

-- The machine recorded one rejection, and nothing else changed.
pub record Rejected (m m' : RunMachine) (r : TransitionResult) (k : TransitionKind) : Type 0 where
  pub entry : RejectionEntry
  pub result : r ≡ rejected m.state entry
  pub after : m' ≡ record m { rejections = m.rejections ++ entry ∷ [] }
  pub names_state : entry.state ≡ m.state
  pub names_kind : entry.attempted ≡ k

abbrev pub Grants : WriteClaim → TransitionKind → RunMachine → Type 0
Grants c k m =
    (c.run_id ≡ m.run_id)
    × (c.version ≡ m.version)
    × (is_terminal m.state ≡ false)
    × ((next : LifecycleState) × (m.table m.state k ≡ some next))

reject-Rejected :
    (k : TransitionKind) (reason : RejectionReason) (detail at : Str) (m : RunMachine)
    → Rejected m (reject k reason detail at m).0 (reject k reason detail at m).1 k
unfolding reject
reject-Rejected k reason detail at m = record {
  entry = _;
  result = refl;
  after = refl;
  names_state = refl;
  names_kind = refl;
}

advance_to-Advanced :
    (next : LifecycleState) (k : TransitionKind) (cause at : Str) (m : RunMachine)
    → is_terminal m.state ≡ false
    → m.table m.state k ≡ some next
    → Advanced m (advance_to next k cause at m).0 (advance_to next k cause at m).1 k
unfolding advance_to
advance_to-Advanced next k cause at m live declared = record {
  entry = _;
  result = refl;
  declared = declared;
  live = live;
  after = refl;
  names_run = refl;
  names_from = refl;
  names_to = refl;
  names_kind = refl;
}

-- What a call made of the machine and answered.
pub data Outcome (c : WriteClaim) (k : TransitionKind) (m : RunMachine)
    (p : RunMachine × TransitionResult) : Type 0 where
  granted : Advanced m p.0 p.1 k → Grants c k m → Outcome c k m p
  refused : Rejected m p.0 p.1 k → ¬ Grants c k m → Outcome c k m p

-- Every call of `apply` either takes a transition that the table declares from a state that is not
-- terminal, adding one entry that describes it and one to the version, or records one rejection and
-- changes nothing else; and it takes the transition exactly when the claim names this run and the
-- current version, the state is not terminal and the table declares the pair.
pub apply-Outcome :
    (c : WriteClaim) (k : TransitionKind) (cause at : Str) (m : RunMachine)
    → Outcome c k m (apply c k cause at m)
unfolding apply
apply-Outcome c k cause at m = elim (Str-discrete c.run_id m.run_id) [
  | no foreign ↦ rw (if_neg _ foreign) (refused (reject-Rejected k _ _ at m) (λ g. foreign g.0))
  | yes own ↦ rw (if_pos _ own) (elim (ℕ_discrete c.version m.version) [
    | no stale ↦ rw (if_neg _ stale) (refused (reject-Rejected k _ _ at m) (λ g. stale g.1))
    | yes current ↦ rw (if_pos _ current) (elim (Bool-cases (is_terminal m.state)) [
      | inl ended ↦
          rw ended (refused (reject-Rejected k _ _ at m) (λ g. false≢true (sym g.2 ∙ ended)))
      | inr live ↦ rw live (elim (Option-cases (m.table m.state k)) [
        | inl missing ↦ rw missing (refused (reject-Rejected k _ _ at m) (λ g. cc (missing, g.3.1)))
        | inr (next, found) ↦ rw found (
            granted (advance_to-Advanced next k cause at m live found)
              (own, current, live, (next, found)))
      ])
    ])
  ])
]

unpermitted : (k : TransitionKind) (m : RunMachine) → ¬ Grants (claim m) k m → permits k m ≡ false
unfolding permits claim
unpermitted k m g = elim (Bool-cases (is_terminal m.state)) [
  | inl ended ↦ rw ended
  | inr live ↦ rw live (elim (Option-cases (m.table m.state k)) [
    | inl missing ↦ rw missing
    | inr (next, found) ↦ absurd (g (refl, refl, live, (next, found)))
  ])
]

-- `permits` answers whether an `advance` would be taken: it is, with the effects of a declared
-- transition, when the answer is true, and recorded as one rejection when it is false.
pub advance-permits :
    (k : TransitionKind) (cause at : Str) (m : RunMachine)
    → let (m', r) = advance k cause at m in
      ((permits k m ≡ true) × Advanced m m' r k) ⊎ ((permits k m ≡ false) × Rejected m m' r k)
unfolding advance permits
advance-permits k cause at m = elim (apply-Outcome (claim m) k cause at m) [
  | granted a g ↦ inl (rw (a.live, a.declared), a)
  | refused r g ↦ inr (unpermitted k m g, r)
]

-- `hold` records one rejection under its reason, and nothing else changes.
pub hold-Rejected :
    (k : TransitionKind) (detail at : Str) (m : RunMachine)
    → Rejected m (hold k detail at m).0 (hold k detail at m).1 k
unfolding hold
hold-Rejected k detail at m = reject-Rejected k precondition_unmet detail at m
