-- ===== src/Orchestration/Finish.antt =====
-- orchestration/terminate.ts, `finish`: a run that has authority is terminated; its evidence is
-- assembled, sealed and committed in one.
pub mod Sealed
use secure_home_agent_platfo.Prelude.{
  ℕ, Bool, true, false, Option, none, some, List, [], ◌∷◌, ◌++◌, if◌then◌else◌, Str, text, decimal,
  ite,
}
use secure_home_agent_platfo.Lifecycle.States.{LifecycleState, state_name}
use secure_home_agent_platfo.Lifecycle.Transitions
use secure_home_agent_platfo.Lifecycle.Transitions.{
  TransitionKind, TransitionKind-discrete, kind_name, seal_evidence, complete, refuse,
  operational_fault, timeout,
}
use secure_home_agent_platfo.Lifecycle.Machine.{
  RunMachine, TransitionEntry, Step, Projection, projected, unprojected, project, CommitResult,
  committed, not_minted, stale_projection, commit_projected,
}
use secure_home_agent_platfo.RunState.Outbox.{is_empty}
use secure_home_agent_platfo.Core.Policy.{PathPolicy}
use secure_home_agent_platfo.Core.Workspace.{AuthoritativeChangeSet}
use secure_home_agent_platfo.Core.Reconciliation.{RawClaims, reconcile_claims}
use secure_home_agent_platfo.Core.Verification.{ArtifactObservation}
use secure_home_agent_platfo.Core.Evidence.{Snapshot, Profile}
use secure_home_agent_platfo.Orchestration.Ledger.{
  SealPreparation, SealRefusal, prepared, not_prepared, outstanding_writes, not_eligible,
  already_sealed, prepare_seal, mark_sealed,
}
use secure_home_agent_platfo.Orchestration.Records.{
  Outcome, Assembly, AssemblyResult, assembled, not_assembled, AssemblyFailure, assemble_evidence,
  run_outcome,
}
use secure_home_agent_platfo.Orchestration.Conclude.{
  no_record, evidence_bundle, RunConclusion, Ended, answers, throws, CommitIntent, CommitRefusal,
  moved, attempt_expired, already_committed, expired, commit_failed, CommitAnswer, acknowledged,
  declined, Ports, Run, lose, tick, unless_rethrown, conclude,
}
use secure_home_agent_platfo.Orchestration.Terminate.{
  Contracts, conclude_reached, fail_closed, reach,
}

-- What a run with authority has established.
pub record Established (Registry : Type 0) : Type 0 where
  pub profile : Snapshot Profile
  pub path_policy : Snapshot PathPolicy
  pub gate_registry : Snapshot Registry
  pub principal : Str
  pub adapter : Str
  pub gate_results : Str
  pub operations : Str
  pub observed : AuthoritativeChangeSet
  pub artifacts : ArtifactObservation
  pub claims : RawClaims

-- What is asked of a finish: the last transition, why, the state that it leads to, and the identity of
-- the projection that it mints.
pub record Finishing (Registry : Type 0) : Type 0 where
  pub established : Established Registry
  pub kind : TransitionKind
  pub detail : Str
  pub terminal : LifecycleState
  pub projection : ℕ

pub refusal_name : SealRefusal → Str
refusal_name outstanding_writes = text "outstanding_writes"
refusal_name not_eligible = text "not_eligible"
refusal_name already_sealed = text "already_sealed"

pub failing_kind : AssemblyFailure → TransitionKind
failing_kind AssemblyFailure.refusal = refuse
failing_kind AssemblyFailure.operational = operational_fault

module _ {W Early Bundle Registry : Type 0} (contracts : Contracts Early Bundle)
    (ports : Ports W Early Bundle) (f : Finishing Registry) where
  unfoldable pub assembly_of : Run W Early → Assembly Registry
  assembly_of r = record {
    profile = f.established.profile;
    path_policy = f.established.path_policy;
    gate_registry = f.established.gate_registry;
    run_id = r.fence.run_id;
    principal = f.established.principal;
    adapter = f.established.adapter;
    terminal = f.terminal;
    detail = f.detail;
    gate_results = f.established.gate_results;
    operations = f.established.operations;
    observed = f.established.observed;
    artifacts = f.established.artifacts;
    reconciliation = reconcile_claims (some f.established.observed) f.established.claims;
    started_at = r.started_at;
    finished_at = ports.now r.world;
  }

  -- The whole terminal sequence: completing takes two transitions.
  unfoldable pub sequence : Str → List Step
  unfolding TransitionKind-discrete
  sequence at =
      ite (TransitionKind-discrete f.kind complete)
        (record { kind = seal_evidence; cause = text "evidence sealed"; at = at }
          ∷ record { kind = complete; cause = f.detail; at = at }
          ∷ [])
        (record { kind = f.kind; cause = f.detail; at = at } ∷ [])

  unfoldable pub intent_of :
      List TransitionEntry → Outcome → Bundle → Run W Early → CommitIntent Bundle
  intent_of entries outcome bundle r = record {
    fence = r.fence;
    commit_id =
        r.fence.run_id
        ++ (text "#g" ++ (decimal r.fence.generation ++ (text "#" ++ state_name f.terminal)));
    terminal = f.terminal;
    transitions = entries;
    outcome = outcome;
    bundle = bundle;
  }

  -- The machine adopts what was committed; the two errors of `commitProjected` go on.
  abbrev pub on_adopted :
      Run W Early → RunMachine × CommitResult → Run W Early × Ended RunConclusion
  on_adopted r (m, committed) =
      conclude ports evidence_bundle f.detail (record r { machine = m; recorded = evidence_bundle })
  on_adopted r (m, not_minted) = (record r { machine = m }, throws)
  on_adopted r (m, stale_projection v w) = (record r { machine = m }, throws)

  abbrev pub on_declined : CommitRefusal → Str → Run W Early → Run W Early × Ended RunConclusion
  on_declined moved why r = conclude ports no_record why (lose why r)
  on_declined attempt_expired why r =
      conclude_reached contracts ports why (reach contracts ports f.kind why r)
  on_declined already_committed why r =
      conclude_reached contracts ports why (reach contracts ports f.kind why r)
  on_declined expired why r = fail_closed contracts ports timeout why r
  on_declined commit_failed why r = fail_closed contracts ports operational_fault why r

  abbrev pub on_committed : Run W Early → W × Ended CommitAnswer → Run W Early × Ended RunConclusion
  on_committed r (w, throws) = (record r { world = w }, throws)
  on_committed r (w, answers acknowledged) =
      let r' = record r { world = w; ledger = mark_sealed r.ledger } in
      on_adopted r' (commit_projected f.projection r'.machine)
  on_committed r (w, answers (declined why detail)) =
      on_declined why detail (record r { world = w })

  abbrev pub on_prepared :
      List TransitionEntry
      → Outcome
      → Run W Early
      → SealPreparation Bundle
      → Run W Early × Ended RunConclusion
  on_prepared entries outcome r (not_prepared why detail) =
      fail_closed contracts ports operational_fault (refusal_name why ++ (text ": " ++ detail)) r
  on_prepared entries outcome r (prepared bundle) =
      on_committed r (ports.commit (intent_of entries outcome bundle r) r.world)

  -- Past the flush: the walk is durable, or the run does not seal.
  abbrev pub on_durable :
      List TransitionEntry
      → Outcome
      → Bundle
      → Bool
      → Run W Early
      → Run W Early × Ended RunConclusion
  on_durable entries outcome bundle false r =
      fail_closed contracts ports operational_fault
        (text
          "the run walk could not be made durable; an entry is missing from the journal and the seal would describe an incomplete record")
        r
  on_durable entries outcome bundle true r = on_prepared entries outcome r (
      prepare_seal contracts.sealing contracts.outcome_of (some bundle)
        (some (run_outcome contracts.form outcome)) r.ledger)

  abbrev pub on_projected :
      Outcome → Bundle → Run W Early → RunMachine × Projection → Run W Early × Ended RunConclusion
  on_projected outcome bundle r (m, unprojected kind from) =
      fail_closed contracts ports operational_fault
        (text "the machine declares no "
          ++ (kind_name kind
              ++ (text " transition from " ++ (state_name from ++ text "; nothing is committed"))))
        (record r { machine = m })
  on_projected outcome bundle r (m, projected entries) =
      unless_rethrown ports (tick ports.journal (record r { machine = m }))
        (λ r'. on_durable entries outcome bundle (is_empty r'.outbox) r')

  abbrev pub on_assembled : Run W Early → AssemblyResult Bundle → Run W Early × Ended RunConclusion
  on_assembled r (not_assembled failure detail) =
      fail_closed contracts ports (failing_kind failure) detail r
  on_assembled r (assembled bundle outcome) =
      on_projected outcome bundle r (project f.projection (sequence (ports.now r.world)) r.machine)

  abbrev pub finish_as : Option Str → Run W Early → Run W Early × Ended RunConclusion
  finish_as (some why) r = conclude ports no_record f.detail r
  finish_as none r = on_assembled r (
      assemble_evidence contracts.form contracts.digest_of contracts.byte_length contracts.evidence
        (assembly_of r))

  unfoldable pub finish : Run W Early → Run W Early × Ended RunConclusion
  finish r = finish_as r.scope.fence_lost r
