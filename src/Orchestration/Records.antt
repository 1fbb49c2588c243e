-- ===== src/Orchestration/Records.antt =====
-- services/runner-control/src/finalization/records.ts: the two governed records that a run can produce,
-- and the outcome of a state. JSON, the parsing of a date and the schemas are parameters; a duration is
-- in milliseconds.
use secure_home_agent_platfo.Prelude.{
  ℕ, ◌-◌, Option, none, some, ◌++◌, ltb, if◌then◌else◌, Str, text,
}
use secure_home_agent_platfo.Lifecycle.States.{
  LifecycleState, requested, profile_resolved, eligible, sandbox_started, running, verifying,
  evidence_sealed, completed, refused, operational_failure, cancelled, timed_out, state_name,
}
use secure_home_agent_platfo.Core.Decision
use secure_home_agent_platfo.Core.Decision.{Decision, proceed, ObservedDecision, decided, code_name}
use secure_home_agent_platfo.Core.Policy.{PathPolicy}
use secure_home_agent_platfo.Core.Workspace.{AuthoritativeChangeSet}
use secure_home_agent_platfo.Core.Reconciliation.{Reconciliation}
use secure_home_agent_platfo.Core.Capture.{SchemaResult, valid, invalid}
use secure_home_agent_platfo.Core.Verification.{ArtifactObservation}
use secure_home_agent_platfo.Core.Evidence.{
  Snapshot, absent, held, Profile, TerminalState, RunOutcome, EvidenceInputs, EvidenceDraft,
  construct_evidence, terminal_success,
}
use secure_home_agent_platfo.Core.Evidence

pub data Outcome : Type 0 where
  success : Outcome
  failing : TerminalState → Str → Outcome

abbrev pub state_of : Outcome → TerminalState
state_of success = TerminalState.completed
state_of (failing s detail) = s

unestablished : LifecycleState → Str → Outcome
unestablished s detail = failing TerminalState.indeterminate (
    text "the run's terminal state could not be established from "
    ++ (state_name s ++ (text ": " ++ detail)))

unfoldable pub outcome_for : LifecycleState → Str → Outcome
unfolding unestablished
outcome_for completed detail = success
outcome_for refused detail = failing TerminalState.refused_state detail
outcome_for operational_failure detail = failing TerminalState.operational_failure_state detail
outcome_for cancelled detail = failing TerminalState.cancelled detail
outcome_for timed_out detail = failing TerminalState.timed_out detail
outcome_for LifecycleState.indeterminate detail = failing TerminalState.indeterminate detail
outcome_for requested detail = unestablished requested detail
outcome_for profile_resolved detail = unestablished profile_resolved detail
outcome_for eligible detail = unestablished eligible detail
outcome_for sandbox_started detail = unestablished sandbox_started detail
outcome_for running detail = unestablished running detail
outcome_for verifying detail = unestablished verifying detail
outcome_for evidence_sealed detail = unestablished evidence_sealed detail

pub record Timing : Type 0 where
  pub started_at : Str
  pub finished_at : Str
  pub duration : ℕ

-- What of the world the records are built with.
pub record Formats : Type 0 where
  pub parse_date : Str → Option ℕ
  pub outcome_json : Outcome → Str
  pub timing_json : Timing → Str

abbrev between : Option ℕ → Option ℕ → ℕ
between (some from) (some to) = if ltb from to then to - from else 0
between none to = 0
between (some from) none = 0

module _ (form : Formats) where
  unfoldable pub timing_of : Str → Str → Timing
  timing_of started_at finished_at = record {
    started_at = started_at;
    finished_at = finished_at;
    duration = between (form.parse_date started_at) (form.parse_date finished_at);
  }

  unfoldable pub run_outcome : Outcome → RunOutcome
  run_outcome o = record { terminal_state = state_of o; document = form.outcome_json o }

-- An early-termination record; the principal that asked and the profile asked for are JSON texts.
pub record EarlyTermination : Type 0 where
  pub run_id : Str
  pub requester : Str
  pub requested_profile : Str
  pub outcome : Outcome
  pub timing : Timing

pub data RecordResult (A : Type 0) : Type 0 where
  built : A → RecordResult A
  not_built : Str → RecordResult A

abbrev on_parsed : {A : Type 0} → SchemaResult A → RecordResult A
on_parsed (valid r) = built r
on_parsed (invalid issues) = not_built issues

module _ {Early : Type 0} (form : Formats)
    (safe_parse : EarlyTermination → SchemaResult Early) where
  unfoldable pub build_early_termination_record :
      (run_id requester requested_profile : Str)
      → LifecycleState
      → (detail started_at finished_at : Str) → RecordResult Early
  unfolding timing_of
  build_early_termination_record run_id requester profile state detail started_at finished_at =
      let outcome = outcome_for state detail in
      if terminal_success (state_of outcome)
      then not_built
          (text "a successful terminal has no early-termination record; the vocabulary omits it")
      else on_parsed (
          safe_parse (record {
            run_id = run_id;
            requester = requester;
            requested_profile = profile;
            outcome = outcome;
            timing = timing_of form started_at finished_at;
          }))

-- What evidence is assembled from.
pub record Assembly (Registry : Type 0) : Type 0 where
  pub profile : Snapshot Profile
  pub path_policy : Snapshot PathPolicy
  pub gate_registry : Snapshot Registry
  pub run_id : Str
  pub principal : Str
  pub adapter : Str
  pub terminal : LifecycleState
  pub detail : Str
  pub gate_results : Str
  pub operations : Str
  pub observed : AuthoritativeChangeSet
  pub artifacts : ArtifactObservation
  pub reconciliation : Reconciliation
  pub started_at : Str
  pub finished_at : Str

pub data AssemblyFailure : Type 0 where
  refusal operational : AssemblyFailure

pub data AssemblyResult (Bundle : Type 0) : Type 0 where
  assembled : Bundle → Outcome → AssemblyResult Bundle
  not_assembled : AssemblyFailure → Str → AssemblyResult Bundle

abbrev pub empty_argv_digest : Str
empty_argv_digest = text "sha256:e3b0c44298fc1c149afbf4c8996fb92427ae41e4649b934ca495991b7852b855"

module _ {Registry : Type 0} (form : Formats) where
  unfoldable pub inputs_of : Assembly Registry → Profile → EvidenceInputs Registry
  unfolding run_outcome timing_of
  inputs_of a profile = record {
    profile = a.profile;
    path_policy = a.path_policy;
    gate_registry = a.gate_registry;
    run = record {
      run_id = a.run_id;
      image_digest = profile.image_digest;
      argv_digest = empty_argv_digest;
      runtime = profile.image_digest;
      provider = profile.model_route;
      adapter = a.adapter;
    };
    principal = a.principal;
    operations = a.operations;
    gate_results = a.gate_results;
    artifacts = a.artifacts;
    observed = a.observed;
    reconciliation = a.reconciliation;
    outcome = run_outcome form (outcome_for a.terminal a.detail);
    timing = form.timing_json (timing_of form a.started_at a.finished_at);
  }

abbrev pub on_constructed :
    {Bundle : Type 0} → Outcome → ObservedDecision Bundle → AssemblyResult Bundle
on_constructed o (Decision.operational_failure f) =
    not_assembled operational (f.source ++ (text ": " ++ f.detail))
on_constructed o (decided (Decision.refusal r)) =
    not_assembled AssemblyFailure.refusal
      (code_name r.code ++ (text " on " ++ (r.violated.element ++ (text ": " ++ r.detail))))
on_constructed o (decided (proceed b)) = assembled b o

abbrev without_profile : {Bundle : Type 0} → AssemblyResult Bundle
without_profile =
    not_assembled operational (text "evidence assembly requires the captured execution profile")

module _ {Registry Bundle : Type 0} (form : Formats) (digest_of : Str → Str) (byte_length : Str → ℕ)
    (safe_parse : EvidenceDraft → SchemaResult Bundle) where
  abbrev with_profile : Assembly Registry → Snapshot Profile → AssemblyResult Bundle
  with_profile a absent = without_profile
  with_profile a (Evidence.refused r) = without_profile
  with_profile a (held source digest identity profile) =
      on_constructed (outcome_for a.terminal a.detail)
        (construct_evidence digest_of byte_length safe_parse (inputs_of form a profile))

  unfoldable pub assemble_evidence : Assembly Registry → AssemblyResult Bundle
  unfolding inputs_of
  assemble_evidence a = with_profile a a.profile
