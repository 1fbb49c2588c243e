-- ===== src/Orchestration/Abort.antt =====
-- orchestration/terminate.ts, `abortRun`: a run that is interrupted while work is in flight. The port
-- that interrupts a session is a parameter; what it answers, or that it throws, is not looked at.
use secure_home_agent_platfo.Prelude.{◌≡◌, refl, ◌∙◌, Option, none, some, ◌++◌, Str, text, ℕ}
use secure_home_agent_platfo.Lifecycle.States
use secure_home_agent_platfo.Lifecycle.States.{LifecycleState}
use secure_home_agent_platfo.Lifecycle.Transitions
use secure_home_agent_platfo.Lifecycle.Transitions.{TransitionKind}
use secure_home_agent_platfo.RunState.Fence.{RunFence}
use secure_home_agent_platfo.Orchestration.Clock.{InterruptReason, cancel, timeout}
use secure_home_agent_platfo.Orchestration.Conclude.{RunConclusion, Ended, Ports, Run}
use secure_home_agent_platfo.Orchestration.Terminate.{Contracts}
use secure_home_agent_platfo.Orchestration.Finish.{Established, Finishing, finish}
use secure_home_agent_platfo.Orchestration.Dispossessed.{
  IsAbandoned, end_run, finishes, end_run-IsAbandoned,
}

-- The reason that the caller passes, or else the one that the deadline raised.
abbrev reason_of : Option InterruptReason → Option InterruptReason → InterruptReason
reason_of (some given) raised = given
reason_of none (some raised) = raised
reason_of none none = cancel

abbrev kind_of : InterruptReason → TransitionKind
kind_of cancel = Transitions.cancel
kind_of timeout = Transitions.timeout

abbrev terminal_of : InterruptReason → LifecycleState
terminal_of cancel = States.cancelled
terminal_of timeout = States.timed_out

abbrev ended_word : InterruptReason → Str
ended_word cancel = text "cancelled"
ended_word timeout = text "timed out"

abbrev pub aborting :
    {Registry : Type 0} → Established Registry → ℕ → InterruptReason → Finishing Registry
aborting established projection reason = record {
  established = established;
  kind = kind_of reason;
  detail = text "the run was " ++ (ended_word reason ++ text " while work was in flight");
  terminal = terminal_of reason;
  projection = projection;
}

module _ {W Early A : Type 0} (interrupt : RunFence → Str → InterruptReason → W → W × Ended A) where
  -- The session is interrupted first, where there is one.
  abbrev pub interrupted : Option Str → InterruptReason → Run W Early → Run W Early
  interrupted none reason r = r
  interrupted (some session_ref) reason r = record r {
    world = (interrupt r.fence session_ref reason r.world).0;
  }

  interrupted-fence_lost :
      (session : Option Str) (reason : InterruptReason) (r : Run W Early)
      → (interrupted session reason r).scope.fence_lost ≡ r.scope.fence_lost
  interrupted-fence_lost none reason r = refl
  interrupted-fence_lost (some session_ref) reason r = refl

module _ {W Early Bundle Registry A : Type 0} (contracts : Contracts Early Bundle)
    (ports : Ports W Early Bundle)
    (interrupt : RunFence → Str → InterruptReason → W → W × Ended A) where
  unfoldable pub abort_run :
      Established Registry
      → ℕ
      → Option InterruptReason
      → Option InterruptReason
      → Run W Early
      → Run W Early × Ended RunConclusion
  abort_run established projection given raised r =
      let reason = reason_of given raised in
      finish contracts ports (aborting established projection reason)
        (interrupted interrupt r.scope.session reason r)

  -- A run that has lost its fence and is aborted asks nothing of the world but that its session, where
  -- it has one, be interrupted: it declares no terminal and writes nothing.
  pub abort_run-IsAbandoned :
      (established : Established Registry) (projection : ℕ) (given raised : Option InterruptReason)
      (r : Run W Early) (why : Str)
      → r.scope.fence_lost ≡ some why
      → IsAbandoned
          (interrupted interrupt r.scope.session (reason_of given raised) r)
          (abort_run established projection given raised r)
  unfolding abort_run end_run
  abort_run-IsAbandoned established projection given raised r why h =
      let reason = reason_of given raised in
      end_run-IsAbandoned contracts ports (finishes (aborting established projection reason))
        (interrupted interrupt r.scope.session reason r) why
        (interrupted-fence_lost interrupt r.scope.session reason r ∙ h)
