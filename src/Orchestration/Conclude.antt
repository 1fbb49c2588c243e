-- ===== src/Orchestration/Conclude.antt =====
-- orchestration/terminate.ts: the state of a run that ends, and `conclude`. What the run asks of the
-- world (the journal, the evidence sink, the finalization commit, the cleanup, the clock) are functions
-- on a state of the world, which answer or throw.
pub mod Stated
pub mod Landed
pub mod Durable
use secure_home_agent_platfo.Prelude.{
  false, Option, none, some, List, [], ◌∷◌, ◌++◌, if◌then◌else◌, Str, text,
}
use secure_home_agent_platfo.Lifecycle.States.{LifecycleState, is_terminal}
use secure_home_agent_platfo.Lifecycle.Machine.{RunMachine, TransitionEntry, RejectionEntry}
use secure_home_agent_platfo.Scope.Release.{RunScope, Cleanup, lose_fence, release, disarm}
use secure_home_agent_platfo.RunState.Fence.{RunFence, FenceOutcome}
use secure_home_agent_platfo.RunState.Outbox.{OutboxEntry, JournalOutbox, is_empty}
use secure_home_agent_platfo.Orchestration.Flush.{
  Appended, Flushed, emptied, conflicting, failed, rethrown, lost, flush_journal,
}
use secure_home_agent_platfo.Orchestration.Ledger.{FinalizationLedger}
use secure_home_agent_platfo.Orchestration.Records.{Outcome}

pub data Produced : Type 0 where
  no_record early_termination_record evidence_bundle : Produced

pub data ConclusionKind : Type 0 where
  terminal held ownership_lost unterminated : ConclusionKind
  settlement_failed : LifecycleState → ConclusionKind

pub record RunConclusion : Type 0 where
  pub run_id : Str
  pub kind : ConclusionKind
  pub state : LifecycleState
  pub produced : Produced
  pub detail : Str
  pub transitions : List TransitionEntry
  pub rejections : List RejectionEntry

-- What a procedure does in the end: it answers, or an error goes on.
pub data Ended (A : Type 0) : Type 0 where
  answers : A → Ended A
  throws : Ended A

-- What a commit is asked to make durable.
pub record CommitIntent (Bundle : Type 0) : Type 0 where
  pub fence : RunFence
  pub commit_id : Str
  pub terminal : LifecycleState
  pub transitions : List TransitionEntry
  pub outcome : Outcome
  pub bundle : Bundle

pub data CommitRefusal : Type 0 where
  moved attempt_expired already_committed expired commit_failed : CommitRefusal

pub data CommitAnswer : Type 0 where
  acknowledged : CommitAnswer
  declined : CommitRefusal → Str → CommitAnswer

-- What a run asks of the world.
pub record Ports (W Early Bundle : Type 0) : Type 0 where
  pub journal : RunFence → OutboxEntry → W → W × Appended
  -- the same journal, within the settlement boundary
  pub settled_journal : RunFence → OutboxEntry → W → W × Appended
  pub clean_up : RunFence → Cleanup → W → W
  pub write_evidence : RunFence → Str → Early → W → W × Ended FenceOutcome
  pub commit : CommitIntent Bundle → W → W × Ended CommitAnswer
  -- `safeNow`, and the clock of the machine
  pub now : W → Str

-- What of a run its ending reads and changes.
pub record Run (W Early : Type 0) : Type 0 where
  pub fence : RunFence
  pub requester : Str
  pub requested_profile : Str
  pub started_at : Str
  pub machine : RunMachine
  pub outbox : JournalOutbox
  pub scope : RunScope
  pub held : Option Str
  pub recorded : Produced
  pub early_record : Option Early
  pub ledger : FinalizationLedger
  pub world : W

abbrev pub lose : Str → {W Early : Type 0} → Run W Early → Run W Early
lose detail r = record r { scope = lose_fence detail r.scope }

abbrev pending_detail : Str → Str
pending_detail detail =
    detail
    ++ text
        "; a required durable journal fact is still pending; the conclusion cannot claim a durable record it does not have"

-- The program tests the text of the hold, and an empty text does not hold.
abbrev waiting : Option Str → ConclusionKind
waiting (some []) = unterminated
waiting (some (c ∷ why)) = held
waiting none = unterminated

module _ {W Early : Type 0} where
  unfoldable pub tick :
      (RunFence → OutboxEntry → W → W × Appended) → Run W Early → Run W Early × Flushed
  tick journal r =
      let (s, ended) = flush_journal journal r.fence (record {
        machine = r.machine;
        outbox = r.outbox;
        fence_lost = r.scope.fence_lost;
        world = r.world;
      }) in
      (
        record r {
          machine = s.machine;
          outbox = s.outbox;
          scope = record r.scope { fence_lost = s.fence_lost };
          world = s.world;
        },
        ended,
      )

  unfoldable pub concluded : ConclusionKind → Produced → Str → Run W Early → RunConclusion
  concluded kind produced detail r = record {
    run_id = r.fence.run_id;
    kind = kind;
    state = r.machine.state;
    produced = produced;
    detail = detail;
    transitions = r.machine.transitions;
    rejections = r.machine.rejections;
  }

  abbrev on_produced : Produced → Str → Run W Early → RunConclusion
  on_produced no_record detail r =
      concluded (settlement_failed r.machine.state) no_record
        (detail ++ text "; the lifecycle terminal has no governed durable record") r
  on_produced early_termination_record detail r =
      concluded terminal early_termination_record detail r
  on_produced evidence_bundle detail r = concluded terminal evidence_bundle detail r

  abbrev on_fence : Option Str → Produced → Str → Run W Early → RunConclusion
  on_fence (some why) produced detail r =
      concluded ownership_lost no_record
        (why
          ++ (text "; no further write was made (this attempt had reached: "
              ++ (detail ++ text ")")))
        r
  on_fence none produced detail r =
      if is_empty r.outbox
      then (if is_terminal r.machine.state
          then on_produced produced detail r
          else concluded (waiting r.held) no_record detail r)
      else (if is_terminal r.machine.state
          then concluded (settlement_failed r.machine.state) no_record (pending_detail detail) r
          else concluded unterminated no_record (pending_detail detail) r)

  -- What `conclude` reports of the run as it then is.
  unfoldable pub conclusion_of : Produced → Str → Run W Early → RunConclusion
  unfolding concluded
  conclusion_of produced detail r = on_fence r.scope.fence_lost produced detail r

module _ {W Early Bundle : Type 0} (ports : Ports W Early Bundle) where
  unfoldable pub clean_up_all : RunFence → List Cleanup → W → W
  clean_up_all f [] w = w
  clean_up_all f (c ∷ cs) w = clean_up_all f cs (ports.clean_up f c w)

  -- The end of `conclude`, past the two ticks.
  abbrev pub releasing : Produced → Str → Run W Early → Run W Early × Ended RunConclusion
  releasing produced detail r =
      let (scope, cleanups) = release false r.scope in
      let r' = record r { scope = scope; world = clean_up_all r.fence cleanups r.world } in
      (r', answers (conclusion_of produced detail r'))

  abbrev pub unless_rethrown :
      Run W Early × Flushed
      → (Run W Early → Run W Early × Ended RunConclusion)
      → Run W Early × Ended RunConclusion
  unless_rethrown (r, rethrown) next = (r, throws)
  unless_rethrown (r, emptied) next = next r
  unless_rethrown (r, conflicting) next = next r
  unless_rethrown (r, failed) next = next r
  unless_rethrown (r, lost detail) next = next r

  unfoldable pub conclude : Produced → Str → Run W Early → Run W Early × Ended RunConclusion
  unfolding tick release disarm conclusion_of clean_up_all
  conclude produced detail r =
      unless_rethrown (tick ports.settled_journal (record r { scope = disarm r.scope }))
        (λ r'. unless_rethrown (tick ports.settled_journal r') (releasing produced detail))
