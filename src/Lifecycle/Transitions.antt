-- ===== src/Lifecycle/Transitions.antt =====
-- lifecycle/transitions.ts: the declared transition table. A supplied table is any such function.
use secure_home_agent_platfo.Prelude.{Option, none, some, Str, text}
use secure_home_agent_platfo.Lifecycle.States.{
  LifecycleState, requested, profile_resolved, eligible, sandbox_started, running, verifying,
  evidence_sealed, completed, refused, operational_failure, cancelled, timed_out,
}

pub data TransitionKind : Type 0 where
  resolve_profile decide_eligibility commit_spend begin_execution begin_verification :
      TransitionKind
  seal_evidence complete refuse operational_fault cancel timeout indeterminate : TransitionKind

unfoldable pub TransitionKind-discrete : Discrete TransitionKind
TransitionKind-discrete = hlevel

abbrev pub Row : Type 0
Row = TransitionKind → Option LifecycleState

abbrev pub TransitionTable : Type 0
TransitionTable = LifecycleState → Row

abbrev pub no_row : Row
no_row kind = none

abbrev only : TransitionKind → LifecycleState → Row
only kind next other = elim (TransitionKind-discrete other kind) [ yes _ ↦ some next | no _ ↦ none ]

-- `{ ...progress, ...TERMINAL_BRANCHES }`: the five terminal branches, over the row's own entry.
abbrev pub with_terminals : Row → Row
with_terminals progress refuse = some refused
with_terminals progress operational_fault = some operational_failure
with_terminals progress cancel = some cancelled
with_terminals progress timeout = some timed_out
with_terminals progress indeterminate = some LifecycleState.indeterminate
with_terminals progress other = progress other

unfoldable pub transitions : TransitionTable
unfolding TransitionKind-discrete
transitions requested = with_terminals (only resolve_profile profile_resolved)
transitions profile_resolved = with_terminals (only decide_eligibility eligible)
transitions eligible = with_terminals (only commit_spend sandbox_started)
transitions sandbox_started = with_terminals (only begin_execution running)
transitions running = with_terminals (only begin_verification verifying)
transitions verifying = with_terminals (only seal_evidence evidence_sealed)
transitions evidence_sealed = with_terminals (only complete completed)
transitions _ = no_row

-- The declared next state, or `none` when the pair is undeclared.
abbrev pub declared_next : TransitionTable → LifecycleState → TransitionKind → Option LifecycleState
declared_next table state kind = table state kind

-- The transition as the program spells it, for messages.
unfoldable pub kind_name : TransitionKind → Str
kind_name resolve_profile = text "resolve_profile"
kind_name decide_eligibility = text "decide_eligibility"
kind_name commit_spend = text "commit_spend"
kind_name begin_execution = text "begin_execution"
kind_name begin_verification = text "begin_verification"
kind_name seal_evidence = text "seal_evidence"
kind_name complete = text "complete"
kind_name refuse = text "refuse"
kind_name operational_fault = text "operational_fault"
kind_name cancel = text "cancel"
kind_name timeout = text "timeout"
kind_name indeterminate = text "indeterminate"
