-- ===== src/Lifecycle/States.antt =====
-- lifecycle/states.ts: the closed vocabulary of states, and the two questions asked of it.
use secure_home_agent_platfo.Prelude.{Bool, true, false, Str, text}

-- `COMPLETED` is a progress state and a terminal state in one.
pub data LifecycleState : Type 0 where
  requested profile_resolved eligible sandbox_started running verifying : LifecycleState
  evidence_sealed completed refused operational_failure cancelled : LifecycleState
  timed_out indeterminate : LifecycleState

pub LifecycleState-discrete : Discrete LifecycleState
LifecycleState-discrete = hlevel

unfoldable pub is_terminal : LifecycleState → Bool
is_terminal completed = true
is_terminal refused = true
is_terminal operational_failure = true
is_terminal cancelled = true
is_terminal timed_out = true
is_terminal indeterminate = true
is_terminal _ = false

pub can_construct_evidence : LifecycleState → Bool
can_construct_evidence requested = false
can_construct_evidence _ = true

-- The state as the program spells it, for messages.
unfoldable pub state_name : LifecycleState → Str
state_name requested = text "REQUESTED"
state_name profile_resolved = text "PROFILE_RESOLVED"
state_name eligible = text "ELIGIBLE"
state_name sandbox_started = text "SANDBOX_STARTED"
state_name running = text "RUNNING"
state_name verifying = text "VERIFYING"
state_name evidence_sealed = text "EVIDENCE_SEALED"
state_name completed = text "COMPLETED"
state_name refused = text "REFUSED"
state_name operational_failure = text "OPERATIONAL_FAILURE"
state_name cancelled = text "CANCELLED"
state_name timed_out = text "TIMED_OUT"
state_name indeterminate = text "INDETERMINATE"
