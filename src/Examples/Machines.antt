-- ===== src/Examples/Machines.antt =====
-- services/runner-control/src/lifecycle: the theorems on the run's machine and its walk at concrete inputs.
use secure_home_agent_platfo.Prelude.{
  Option, some, ◌≡◌, refl, ℕ, ◌≤◌, none, List, [], ◌∷◌, map, length, text, Str, Str-discrete,
  ℕ_discrete,
}
use secure_home_agent_platfo.Lifecycle.States.{requested, profile_resolved, completed, is_terminal}
use secure_home_agent_platfo.Lifecycle.Transitions.{
  kind_name, TransitionKind, transitions, resolve_profile, decide_eligibility, commit_spend,
  begin_execution, begin_verification, seal_evidence, complete, cancel,
}
use secure_home_agent_platfo.Lifecycle.Machine.{
  RunMachine, TransitionEntry, WriteClaim, Step, new, claim, apply, project, advance,
}
use secure_home_agent_platfo.Lifecycle.Machine.Record.{IsWalk}
use secure_home_agent_platfo.Lifecycle.Machine.Calls.{Call, applies, run, step, run-new-IsWalk}
use secure_home_agent_platfo.Lifecycle.Machine.Totality.{Outcome, apply-Outcome, Grants}
use secure_home_agent_platfo.Lifecycle.Machine.Projecting.{Commits, project-Commits}
use secure_home_agent_platfo.Lifecycle.Table.{length-transitions-le, completed_in_order, order}
use secure_home_agent_platfo.Lifecycle.Walk.{earned, Phase, WalkHooks, walk, walked}
use secure_home_agent_platfo.Lifecycle.States.{LifecycleState, eligible, state_name}
use secure_home_agent_platfo.Prelude.Objects.{is_inherited, one_of}
use secure_home_agent_platfo.Prelude.Maps
use secure_home_agent_platfo.Prelude.Maps.{Map}
use secure_home_agent_platfo.Orchestration.Controls.{
  Value, string, foreign, Value-discrete, Chain, SuppliedRow, row, no_object, read, add_keys,
  collect, named, declared_row, declared_entry, Table, fresh, accepted, check_entry, check_row,
  copy_row, copy_rows, narrowing_only, next_in,
}
use secure_home_agent_platfo.Orchestration.Narrowing.{narrowing_only-transitions}

abbrev at : Str
at = text "2026-01-01T00:00:00.000Z"

abbrev start_of : RunMachine
start_of = new (text "r") transitions

-- A claim at the given version.
abbrev at_version : ℕ → WriteClaim
at_version n = record { run_id = text "r"; version = n }

abbrev takes : ℕ → TransitionKind → Call
takes n k = applies (at_version n) k (text "done") at

abbrev all_seven : List Call
all_seven =
    takes 0 resolve_profile
    ∷ takes 1 decide_eligibility
    ∷ takes 2 commit_spend
    ∷ takes 3 begin_execution
    ∷ takes 4 begin_verification
    ∷ takes 5 seal_evidence
    ∷ takes 6 complete
    ∷ []

run-new-IsWalk_example :
    let m = run all_seven start_of in
    IsWalk transitions (text "r") requested m.transitions m.state
    × (m.version ≡ length m.transitions)
run-new-IsWalk_example = run-new-IsWalk (text "r") transitions all_seven

apply-Outcome_example :
    Outcome
      (at_version 0)
      resolve_profile
      start_of
      (apply (at_version 0) resolve_profile (text "done") at start_of)
apply-Outcome_example = apply-Outcome (at_version 0) resolve_profile (text "done") at start_of

length-transitions-le_example : length (run all_seven start_of).transitions ≤ 7
length-transitions-le_example = length-transitions-le (text "r") all_seven

all_seven_completed : (run all_seven start_of).state ≡ completed
unfolding run step apply new transitions is_terminal text Str-discrete ℕ_discrete
all_seven_completed = refl

completed_in_order_example :
    map (λ (e : TransitionEntry). e.kind) (run all_seven start_of).transitions ≡ order
completed_in_order_example = completed_in_order (text "r") all_seven all_seven_completed

first-Grants : Grants (at_version 0) resolve_profile start_of
unfolding new transitions is_terminal text Str-discrete ℕ_discrete
first-Grants = (refl, refl, refl, (profile_resolved, refl))

abbrev two_steps : List Step
two_steps =
    record { kind = resolve_profile; cause = text "done"; at = at }
    ∷ record { kind = cancel; cause = text "stop"; at = at }
    ∷ []

project-Commits_example : Commits 4 two_steps start_of (project 4 two_steps start_of)
project-Commits_example = project-Commits 4 two_steps start_of

abbrev phase_of : Str → TransitionKind → Phase Unit Unit
phase_of name kind = record { name = name; earns = kind; effects = λ s. (earned (text "done"), s) }

abbrev hooks : WalkHooks Unit
hooks = record { before_phase = λ name s. (none, s); after_record = λ s. s; now = λ w. at }

abbrev resolving : Phase Unit Unit
resolving = phase_of (text "requested") resolve_profile

abbrev deciding : Phase Unit Unit
deciding = phase_of (text "profile_resolved") decide_eligibility

two_walked : (walk hooks (resolving ∷ deciding ∷ []) (start_of, tt)).0 ≡ walked
unfolding walk advance apply claim new transitions is_terminal text Str-discrete ℕ_discrete
two_walked = refl

abbrev prototype_value : Str → Value
prototype_value name = foreign 0

abbrev member_property : Str → Str → Option Value
member_property name key = none

abbrev shown : Value → Str
shown v = []

abbrev cancelling : Str → SuppliedRow
cancelling to = row (((text "cancel", string to) ∷ []) ∷ [])

-- Two own rows, that of COMPLETED empty, and one that is inherited, which is no object.
abbrev candidate : Str → Chain SuppliedRow
candidate to =
    ((text "ELIGIBLE", cancelling to) ∷ (text "COMPLETED", row ([] ∷ [])) ∷ [])
    ∷ ((text "RUNNING", no_object) ∷ [])
    ∷ []

abbrev narrowed : Table
narrowed = fresh (
    (text "ELIGIBLE", (text "cancel", string (text "CANCELLED")) ∷ [])
    ∷ (text "COMPLETED", [])
    ∷ [])

candidate_accepted :
    narrowing_only prototype_value member_property shown (some (candidate (text "CANCELLED")))
    ≡ accepted narrowed
unfolding narrowing_only copy_rows check_row copy_row check_entry declared_entry declared_row named
    read add_keys collect is_inherited one_of Maps.get Maps.set kind_name state_name transitions
    text Str-discrete ℕ_discrete Value-discrete
candidate_accepted = refl

narrowing_only-transitions_example :
    (next : LifecycleState) × ((transitions eligible cancel ≡ some next)
      × (string (text "CANCELLED") ≡ string (state_name next)))
unfolding next_in kind_name state_name Maps.get text Str-discrete ℕ_discrete
narrowing_only-transitions_example =
    narrowing_only-transitions prototype_value member_property shown
      (some (candidate (text "CANCELLED"))) narrowed eligible cancel (string (text "CANCELLED"))
      candidate_accepted refl
