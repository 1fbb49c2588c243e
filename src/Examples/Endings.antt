-- ===== src/Examples/Endings.antt =====
-- services/runner-control/src/orchestration: the theorems on the ending of runs at concrete inputs.
use secure_home_agent_platfo.Prelude.{
  ◌≡◌, refl, ℕ, ◌+◌, true, false, Option, none, some, List, [], ◌∷◌, text, Str, Str-discrete,
  ℕ_discrete, length,
}
use secure_home_agent_platfo.Prelude.Maps
use secure_home_agent_platfo.Lifecycle.States.{
  LifecycleState, requested, profile_resolved, is_terminal, state_name,
}
use secure_home_agent_platfo.Lifecycle.States
use secure_home_agent_platfo.Lifecycle.Transitions.{
  TransitionKind-discrete, refuse, resolve_profile, transitions,
}
use secure_home_agent_platfo.Lifecycle.Machine
use secure_home_agent_platfo.Lifecycle.Machine.{
  RunMachine, RejectionEntry, TransitionEntry, undeclared_transition,
}
use secure_home_agent_platfo.RunState.Fence
use secure_home_agent_platfo.RunState.Fence.{RunFence}
use secure_home_agent_platfo.RunState.Journal.{RunJournal, Fact, rejection, page_of}
use secure_home_agent_platfo.RunState.Outbox
use secure_home_agent_platfo.RunState.Outbox.{OutboxEntry, JournalOutbox}
use secure_home_agent_platfo.Scope.Release.{RunScope}
use secure_home_agent_platfo.Core.Capture.{valid}
use secure_home_agent_platfo.Core.Eligibility.{CapturedIdentity}
use secure_home_agent_platfo.Core.Reconciliation.{no_claims}
use secure_home_agent_platfo.Core.Verification.{artifacts}
use secure_home_agent_platfo.Core.Evidence
use secure_home_agent_platfo.Core.Evidence.{EvidenceDraft}
use secure_home_agent_platfo.Core.Evidence.Seal
use secure_home_agent_platfo.Core.Canonical.{canonical_sort}
use secure_home_agent_platfo.Orchestration.Flush
use secure_home_agent_platfo.Orchestration.Flush.{flush_journal}
use secure_home_agent_platfo.Orchestration.Finish
use secure_home_agent_platfo.Orchestration.Records
use secure_home_agent_platfo.Orchestration.Ledger
use secure_home_agent_platfo.Orchestration.Records.{Formats, EarlyTermination}
use secure_home_agent_platfo.Orchestration.Conclude
use secure_home_agent_platfo.Orchestration.Conclude.{Ports, Run, RunConclusion}
use secure_home_agent_platfo.Orchestration.Conclude.Durable.{IsRecorded, conclude-IsRecorded}
use secure_home_agent_platfo.Orchestration.Terminate.{Contracts}
use secure_home_agent_platfo.Orchestration.Finish.{Finishing, finish}
use secure_home_agent_platfo.Orchestration.Finish.Sealed.{IsSealed, finish-IsSealed}
use secure_home_agent_platfo.Orchestration.Dispossessed.{
  IsAbandoned, end_run, finishes, end_run-IsAbandoned,
}
use secure_home_agent_platfo.Orchestration.Late.{DeclaresTerminal, finish_of_moved}
use secure_home_agent_platfo.Orchestration.Clock
use secure_home_agent_platfo.Orchestration.Clock.{
  Event, arms_profile, ticks, boundary, returned, timeout, InterruptReason, RunDeadline, call,
  value, answers,
}
use secure_home_agent_platfo.Orchestration.Clock.Provenance.{Spent, run-new-timeout, call-value}
use secure_home_agent_platfo.Orchestration.Flush.{Appended, answered, Delivery, acknowledged, errs}
use secure_home_agent_platfo.Orchestration.Flush.History
use secure_home_agent_platfo.Orchestration.Flush.History.{
  Action, records, flushes, Keeps, run-new-Keeps, Recording,
}

abbrev fence : RunFence
fence = record { run_id = text "r"; generation = 1 }

abbrev machine : RunMachine
machine = Machine.new (text "r") transitions

abbrev journal : RunJournal
journal = record { pages = []; fence = record { high = [] } }

abbrev fact : Fact
fact = rejection (record {
  run_id = text "r";
  state = requested;
  attempted = resolve_profile;
  reason = undeclared_transition;
  detail = text "d";
  at = text "t";
})

-- The append lands and its acknowledgement is lost; the next flush sends it again.
abbrev actions : List Action
actions = records fact ∷ flushes machine (errs true false ∷ []) ∷ flushes machine [] ∷ []

run-new-Keeps_example :
    let (s, recorded) =
      History.run fence actions
        (record { outbox = Outbox.new (text "r#g1"); fence_lost = none; journal = journal }) in
    Keeps recorded s.outbox (page_of (text "r") s.journal)
unfolding page_of Maps.get
run-new-Keeps_example = run-new-Keeps fence (text "r#g1") journal actions refl

-- A caller that asks for a timeout, and a boundary past the armed instant.
abbrev late : List Event
late = arms_profile 1 5 none ∷ boundary 9 ∷ ticks (some (returned timeout)) ∷ []

run-new-timeout_example : Spent late (Clock.new 0)
unfolding Clock.run Clock.step Clock.new Clock.raise Clock.raise_if_elapsed Clock.arm_profile
    Clock.set_wall_clock Clock.interrupted ℕ_discrete
run-new-timeout_example = run-new-timeout 0 late refl

abbrev clock : RunDeadline
clock = record {
  started_at = 0;
  armed_until = some 5;
  wall_clock = true;
  cancel_clock = false;
  reason = none;
}

abbrev work : Clock.Work ℕ
work = answers 7

call-value_example :
    (work ≡ answers 7)
    × (clock.reason ≡ none)
    × (Clock.elapsed 1 clock.armed_until ≡ false)
    × (clock.reason ≡ none)
    × (Clock.elapsed 3 clock.armed_until ≡ false)
unfolding call Clock.race Clock.arrive Clock.run Clock.raise_if_elapsed Clock.raise
call-value_example = call-value 1 [] 3 work clock clock 7 refl

abbrev form : Formats
form = record {
  parse_date = λ s. none;
  outcome_json = λ o. text "{}";
  timing_json = λ t. text "{}";
}

abbrev contracts : Contracts EarlyTermination EvidenceDraft
contracts = record {
  form = form;
  digest_of = λ s. s;
  byte_length = λ s. length s;
  early = λ e. valid e;
  evidence = λ d. valid d;
  sealing = λ d. valid d;
  outcome_of = λ d. d.outcome;
}

-- A world that counts what it is asked.
abbrev acknowledging : RunFence → OutboxEntry → ℕ → ℕ × Appended
acknowledging f e w = (w + 1, answered Fence.ok)

abbrev moved_on : RunFence → OutboxEntry → ℕ → ℕ × Appended
moved_on f e w = (w + 1, answered (Fence.not_ok Fence.stale_fence (text "moved")))

abbrev ports : (RunFence → OutboxEntry → ℕ → ℕ × Appended) → Ports ℕ EarlyTermination EvidenceDraft
ports journal = record {
  journal = journal;
  settled_journal = journal;
  clean_up = λ f c w. w + 1;
  write_evidence = λ f id e w. (w + 1, Conclude.answers Fence.ok);
  commit = λ i w. (w + 1, Conclude.answers Conclude.acknowledged);
  now = λ w. text "t";
}

-- The run has resolved its profile, and its first transition is not in the journal yet.
abbrev pub resolved : RunMachine
resolved = record machine {
  state = profile_resolved;
  version = 1;
  transitions =
      record {
        run_id = text "r";
        from = requested;
        to = profile_resolved;
        kind = resolve_profile;
        cause = text "done";
        at = text "t";
      }
      ∷ [];
}

abbrev scope : Option Str → RunScope
scope lost = record {
  workspace = some (text "w");
  session = none;
  workspace_attempt = none;
  session_attempt = none;
  fence_lost = lost;
  armed = true;
}

abbrev pub run_with : Option Str → RunMachine → Run ℕ EarlyTermination
run_with lost m = record {
  fence = fence;
  requester = text "me";
  requested_profile = text "p";
  started_at = text "t";
  machine = m;
  outbox = Outbox.new (text "r#g1");
  scope = scope lost;
  held = none;
  recorded = Conclude.no_record;
  early_record = none;
  ledger = Ledger.new (text "r");
  world = 0;
}

abbrev governing : Str → CapturedIdentity
governing name = record { contract_id = name; contract_version = text "1"; digest = text "#" }

abbrev finishing : Finishing Str
finishing = record {
  established = record {
    profile = Evidence.held (text "p") (text "#") (governing (text "execution-profile")) (record {
      name = text "n";
      version = text "v";
      capability = text "c";
      image_digest = text "i";
      model_route = text "m";
    });
    path_policy = Evidence.held (text "q") (text "#") (governing (text "path-policy")) (record {
      prohibited_rules = [];
      allowed_write_roots = [];
      max_files = 1;
      max_file_bytes = 1;
      max_total_bytes = 1;
    });
    gate_registry =
        Evidence.held (text "g") (text "#") (governing (text "gate-registry")) (text "{}");
    principal = text "me";
    adapter = text "a";
    gate_results = text "[]";
    operations = text "[]";
    observed = record { changes = [] };
    artifacts = artifacts [];
    claims = no_claims;
  };
  kind = refuse;
  detail = text "no";
  terminal = States.refused;
  projection = 0;
}

end_run-IsAbandoned_example : IsAbandoned (run_with (some (text "moved")) resolved) (
    end_run contracts
      (ports acknowledging)
      (finishes finishing)
      (run_with (some (text "moved")) resolved))
end_run-IsAbandoned_example =
    end_run-IsAbandoned contracts (ports acknowledging) (finishes finishing)
      (run_with (some (text "moved")) resolved) (text "moved") refl

finished :
    (p : Run ℕ EarlyTermination × RunConclusion) × ((finish contracts
          (ports acknowledging)
          finishing
          (run_with none resolved)
        ≡ (p.0, Conclude.answers p.1))
      × (p.1.produced ≡ Conclude.evidence_bundle))
unfolding finish Finish.assembly_of Finish.sequence Finish.intent_of Records.assemble_evidence
    Records.inputs_of Records.run_outcome Records.timing_of Records.outcome_for
    Evidence.construct_evidence Evidence.validate Evidence.prepare Evidence.on_profile
    Evidence.on_policy Evidence.on_registry Evidence.on_artifacts Evidence.on_entries
    Evidence.entries_of Evidence.draft Evidence.on_schema canonical_sort Machine.project
    TransitionKind-discrete is_terminal transitions Conclude.tick flush_journal Outbox.drain_machine
    Machine.pending_journal Machine.confirm_journaled Outbox.new Outbox.is_empty Ledger.prepare_seal
    Ledger.new Seal.decide_seal_eligibility Seal.on_bundle Seal.on_outcome Ledger.mark_sealed
    Machine.commit_projected ℕ_discrete Str-discrete text Conclude.conclude Machine.new
finished = (_, (refl, refl))

finish-IsSealed_example :
    IsSealed contracts (ports acknowledging) finishing (run_with none resolved)
finish-IsSealed_example =
    finish-IsSealed contracts (ports acknowledging) finishing (run_with none resolved)
      (finished.0.0) (finished.0.1) (finished.1.0) (finished.1.1)

-- A machine that was refused.
abbrev ended : RunMachine
ended = record resolved { state = States.refused }

concluded :
    (p : Run ℕ EarlyTermination × RunConclusion) × ((Conclude.conclude
          (ports acknowledging)
          Conclude.evidence_bundle
          (text "no")
          (run_with none ended)
        ≡ (p.0, Conclude.answers p.1))
      × (p.1.kind ≡ Conclude.terminal))
unfolding Conclude.conclude Conclude.tick flush_journal Outbox.drain_machine Machine.pending_journal
    Machine.confirm_journaled Outbox.new Outbox.is_empty Machine.new is_terminal
concluded = (_, (refl, refl))

conclude-IsRecorded_example :
    IsRecorded (ports acknowledging) Conclude.evidence_bundle (run_with none ended) (concluded.0.1)
conclude-IsRecorded_example =
    conclude-IsRecorded (ports acknowledging) Conclude.evidence_bundle (text "no")
      (run_with none ended) (concluded.0.0) (concluded.0.1) (concluded.1.0) (concluded.1.1)

assembled_here :
    (p : EvidenceDraft × Records.Outcome) × (Records.assemble_evidence form
        (λ s. s)
        (λ s. length s)
        (λ d. valid d)
        (Finish.assembly_of contracts (ports moved_on) finishing (run_with none resolved))
      ≡ Records.assembled p.0 p.1)
unfolding Finish.assembly_of Records.assemble_evidence Records.inputs_of Records.run_outcome
    Records.timing_of Records.outcome_for Evidence.construct_evidence Evidence.validate
    Evidence.prepare Evidence.on_profile Evidence.on_policy Evidence.on_registry
    Evidence.on_artifacts Evidence.on_entries Evidence.entries_of Evidence.draft Evidence.on_schema
    canonical_sort
assembled_here = (_, refl)

declared_here :
    (p : RunMachine × List TransitionEntry) × (Machine.project 0
        (Finish.sequence contracts (ports moved_on) finishing (text "t"))
        resolved
      ≡ (p.0, Machine.projected p.1))
unfolding Machine.project Finish.sequence TransitionKind-discrete is_terminal transitions
    Machine.new
declared_here = (_, refl)

-- The journal answers that the run has moved on.
refused_here :
    (s : Run ℕ EarlyTermination) × (Conclude.tick moved_on
        (record (run_with none resolved) { machine = declared_here.0.0 })
      ≡ (s, Flush.lost (text "moved")))
unfolding declared_here Machine.project Finish.sequence TransitionKind-discrete is_terminal
    transitions Conclude.tick flush_journal Outbox.drain_machine Machine.pending_journal
    Machine.confirm_journaled Outbox.new Machine.new
refused_here = (_, refl)

finish_of_moved_example :
    DeclaresTerminal (finish contracts (ports moved_on) finishing (run_with none resolved))
unfolding is_terminal Machine.new
finish_of_moved_example =
    finish_of_moved contracts (ports moved_on) finishing (run_with none resolved) (refused_here.0)
      (assembled_here.0.0) (assembled_here.0.1) (declared_here.0.0) (declared_here.0.1)
      (text "moved") refl refl refl (assembled_here.1) (declared_here.1) (refused_here.1)
